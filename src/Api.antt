-- ===== src/Api.antt =====
-- frontend/src/api: the HTTP client, the traffic stream, and the types of their payloads.
pub mod Entries
pub mod Json
pub mod Types
pub mod Client
pub mod Sse
