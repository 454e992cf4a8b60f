-- ===== src/Tests.antt =====
-- Runs of the modelled code on concrete inputs (after pkg/clientconfig, service and pkg/nvme).
pub mod Data
mod Cache
mod Service
mod Nvme
mod Queue
mod Controller
mod NvmeClient
mod Parser
mod System
mod Collections
mod Startup
mod NvmeHost
