-- ===== src/GpuBench.antt =====
-- The benchmark of crates/gpu-bench: its kernels, the suite of measurements and the command line.
pub mod Gemm
pub mod Triad
pub mod Backend
pub mod Wgpu
pub mod Cuda
pub mod Metal
pub mod Simd
pub mod Network
pub mod Suite
pub mod Run
mod Tests
