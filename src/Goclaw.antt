-- ===== src/Goclaw.antt =====
-- The GoClaw provider (internal/provider/goclaw).
pub mod Io
pub mod Http
pub mod Helpers
pub mod Tenants
pub mod Resources
pub mod Sockets
pub mod Links
pub mod Cli
pub mod Configs
pub mod Servers
pub mod WorkstationSpec
pub mod Workstations
pub mod Listing
pub mod Inventory
pub mod Dispatch
