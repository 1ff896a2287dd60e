-- ===== src/Server.antt =====
-- The assembly of the process: internal/app/config, internal/app/server and the long-running
-- commands of internal/cmd.
pub mod Config
pub mod Routes
pub mod Features
pub mod Install
pub mod Compact
pub mod App
pub mod Commands
pub mod Guards
pub mod Parts
pub mod Duplicates
pub mod Panics
pub mod Adds
pub mod Switches
pub mod Split
