-- ===== src/Core.antt =====
-- Package core: the router, the retry policy and the interceptor chain.
pub mod Float32
pub mod Types
pub mod Pricing
pub mod Router
pub mod Retry
pub mod Interceptor
