-- ===== src/Gpu.antt =====
-- The OpenCL operations of kgpu/src/gpuSpace/openCLOperations.c.
pub mod Streams
pub mod Ranges
pub mod Memory
pub mod Runtime
