-- ===== src/Json.antt =====
-- src/network/json: the values, the parser and the serializer of JSON.
pub mod Value
pub mod Cursor
pub mod Strings
pub mod Parser
pub mod Serializer
pub mod Quiet
pub mod Shape
pub mod RoundTrip
pub mod Ensures
pub mod Sound
pub mod Utf8
mod Tests
