-- ===== src/Examples.antt =====
-- Concrete parameters, and the theorems at concrete inputs.
mod Samples
pub mod Memory
mod Canvas
mod Connections
mod Pages
mod Forms
mod Proxies
mod Transports
mod Sessions
