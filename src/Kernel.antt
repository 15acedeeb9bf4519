-- ===== src/Kernel.antt =====
-- The kernel driver, kgpu/src/kernelSpace/main.c.
pub mod Bitmap
pub mod Table
pub mod Kutils
pub mod Mempool
pub mod Vm
pub mod Requests
pub mod Open
pub mod Module
pub mod Control
