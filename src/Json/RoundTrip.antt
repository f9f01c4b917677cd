-- ===== src/Json/RoundTrip.antt =====
-- What JsonParser.cpp reads against what JsonSerializer.cpp writes.
pub mod Strings
pub mod Numbers
pub mod Values
pub mod Containers
pub mod Documents
pub mod Reparse
