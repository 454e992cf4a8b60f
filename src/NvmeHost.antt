-- ===== src/NvmeHost.antt =====
-- pkg/nvme/nvmehost: the host side of NVMe over TCP, which implements the interface of pkg/hostapi.
pub mod Pool
pub mod Commands
pub mod Queue
pub mod Session
pub mod Target
