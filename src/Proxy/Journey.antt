-- ===== src/Proxy/Journey.antt =====
-- A client and a destination that connect and then talk through the whole program: Connection.ts and
-- DemoPage.tsx of examples/hello-spanreed/client/src, pkg/transport/client_connection_router.go,
-- pkg/proxy/proxy.go and pkg/transport/udp_destination.go, one after the other.
pub mod Outward
pub mod Homeward
pub mod Chatting
pub mod Hearing
