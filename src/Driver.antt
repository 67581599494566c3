-- ===== src/Driver.antt =====
-- internal/driver: the package that talks to Kafka.
pub mod Event
pub mod Throttle
pub mod Config
pub mod Consumer
