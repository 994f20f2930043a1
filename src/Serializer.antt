-- ===== src/Serializer.antt =====
-- accelerator/core/serializer: requests read from JSON texts, and responses written as JSON texts.
pub mod Helper
pub mod Transaction
pub mod Transfer
pub mod Requests
pub mod Responses
pub mod Mam
pub mod Members
pub mod Carries
pub mod RoundTrip
pub mod Service
