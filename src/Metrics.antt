-- ===== src/Metrics.antt =====
-- metrics/sampler_linux.go, metrics/gpu.go and metrics/metrics.go: the machine's load. `Words` has the
-- functions of Go that take texts apart, `Round` round1, `Cpu` the sampler of /proc/stat, `Memory` the reading of
-- /proc/meminfo, `Gpu`, `Rocm` and `Ioreg` what the vendors' tools print, `Darwin` and `Sysctl` the readings of macOS,
-- and `Collect` puts a snapshot together; a text is the list of its codes. The other children prove.
pub mod Words
pub mod Cpu
pub mod CpuText
pub mod Load
pub mod Round
pub mod Gpu
pub mod GpuRows
pub mod Rocm
pub mod RocmOrder
pub mod Memory
pub mod Ioreg
pub mod Darwin
pub mod Collect
pub mod Sysctl
pub mod Bounds
