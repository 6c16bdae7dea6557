-- ===== src/Wire.antt =====
-- The messages of the client, through the classes that the FlatBuffers compiler generated:
-- examples/hello-spanreed/client/src/gen.
pub mod Flatbuffers
pub mod Building
pub mod ConnectClientMessage
pub mod ConnectClientVerdict
pub mod ClientMessage
pub mod UserMessage
pub mod UserConnectMessage
pub mod UserClickMessage
pub mod UserChatMessage
pub mod UserPingMessage
pub mod Message
pub mod ServerMessage
pub mod ServerChatMessage
pub mod ServerGameStateMessage
pub mod Dot
pub mod CloseConnection
pub mod ConnectDestinationVerdict
pub mod ConnectionVerdict
pub mod DestinationMessage
pub mod ProxyDestClientMessage
pub mod ProxyDestCloseConnection
pub mod ProxyDestConnectionRequest
pub mod ProxyDestinationMessage
pub mod ProxyMessage
pub mod InnerMsg
pub mod ProxyDestInnerMsg
