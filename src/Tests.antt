-- ===== src/Tests.antt =====
-- Concrete parameters (a table in memory, formats, tokens, a keeper in memory) with the proofs that
-- they meet what is assumed of them, the theorems applied to them, and runs.
pub mod Memory
pub mod Formats
pub mod KeeperMemory
pub mod Widgets
pub mod Users
pub mod Products
pub mod Imports
pub mod Grpc
pub mod Api
pub mod Requests
pub mod Traces
pub mod Moving
pub mod Server
pub mod Events
pub mod Deps
