-- ===== src/Core.antt =====
-- accelerator/core/: buffering, fetching and broadcasting requests, and the full nodes.
pub mod Apis
pub mod Attach
pub mod Broadcast
pub mod Buffer
pub mod Node
pub mod Query
pub mod Requests
pub mod Transfer
