-- ===== src/Providers.antt =====
-- providers/providers.go: what every provider shares.
pub mod Breaker
pub mod Window
