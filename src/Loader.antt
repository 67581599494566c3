-- ===== src/Loader.antt =====
-- loader.go: warming up, serving and starting.
pub mod WarmUp
pub mod Serve
pub mod Start
