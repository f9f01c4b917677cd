-- ===== src/Network.antt =====
-- src/network: URLs, headers and the interceptor of requests.
pub mod Url
pub mod Header
pub mod Interceptor
pub mod Engine
mod Tests
