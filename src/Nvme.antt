-- ===== src/Nvme.antt =====
-- pkg/nvme: the NVMe side of a discovery server and its client.
pub mod Sgl
pub mod LogPage
pub mod Controller
pub mod Queue
pub mod Tcp
