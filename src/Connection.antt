-- ===== src/Connection.antt =====
-- Opening a connection: examples/hello-spanreed/client/src/Connection.ts.
pub mod Payload
pub mod Websocket
pub mod Webtransport
pub mod Agreement
pub mod Answers
