-- ===== src/Tests.antt =====
-- Runs on concrete inputs, and the theorems at inputs that meet their hypotheses.
mod Codec
mod Ack
mod RateLimit
mod Priority
mod Server
mod Redis
mod Reading
mod Config
mod Registry
mod Unauthorised
