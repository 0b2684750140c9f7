-- ===== src/Tests.antt =====
-- Runs of the models on small inputs, and the theorems at such inputs.
mod Strings
mod Heap
mod Numbers
mod Html
mod Tree
mod Page
mod Kernel
mod Texts
mod Exchange
mod System
mod Devices
