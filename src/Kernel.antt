-- ===== src/Kernel.antt =====
-- Parts of the kernel, src.
pub mod RingBuffer
pub mod PageAllocator
pub mod Scheduler
pub mod CommandLine
pub mod StringBuffer
pub mod Rect
pub mod TrbRing
pub mod Checksum
pub mod Keyboard
pub mod Mouse
pub mod Network
pub mod TextBox
