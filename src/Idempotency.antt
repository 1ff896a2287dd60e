-- ===== src/Idempotency.antt =====
-- internal/app/idempotency/idempotency.go: a POST runs once per Idempotency-Key of its caller, a
-- message once per group. The keeper of the package dedup is a parameter.
pub mod Escape
pub mod Keys
pub mod Keeper
pub mod Http
pub mod Broker
