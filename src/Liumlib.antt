-- ===== src/Liumlib.antt =====
-- The C library of the user programs, app/liumlib/liumlib.c.
pub mod Str
pub mod Block
pub mod Alloc
pub mod Output
pub mod Number
