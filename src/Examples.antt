-- ===== src/Examples.antt =====
-- The theorems at concrete inputs, and tests of the definitions.
mod Data
mod Entities
mod Services
mod Delivery
mod Time
mod Requests
mod Workers
mod Platforms
