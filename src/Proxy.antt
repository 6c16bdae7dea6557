-- ===== src/Proxy.antt =====
-- The proxy, in Go: internal/client_store.go, pkg/proxy/proxy.go and pkg/transport.
pub mod Store
pub mod State
pub mod Hub
pub mod Hosts
pub mod Datagrams
pub mod Udp
pub mod Router
pub mod Journey
pub mod Session
