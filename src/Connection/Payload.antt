-- ===== src/Connection/Payload.antt =====
-- The messages that the client sends, built as in examples/hello-spanreed/client/src/Connection.ts
-- and DemoPage.tsx.
use spanreed_netcode_proxy.Prelude.{ℕ, String}
use spanreed_netcode_proxy.Wire.Flatbuffers.{Flatbuffers, Bytes, Build, ◌>>=◌}
use spanreed_netcode_proxy.Wire.ConnectClientMessage.{
  create_connect_client_message, finish_connect_client_message_buffer,
}
use spanreed_netcode_proxy.Wire.ClientMessage.{create_client_message, finish_client_message_buffer}
use spanreed_netcode_proxy.Wire.UserMessage.{
  UserMessage, user_message_value, user_connect_message, user_click_message, user_chat_message,
  user_ping_message,
}
use spanreed_netcode_proxy.Wire.UserConnectMessage.{create_user_connect_message}
use spanreed_netcode_proxy.Wire.UserClickMessage.{create_user_click_message}
use spanreed_netcode_proxy.Wire.UserChatMessage.{create_user_chat_message}
use spanreed_netcode_proxy.Wire.UserPingMessage.{create_user_ping_message}
pub mod Decoding
pub mod RoundTrip

module _ {N : Type 0} (fb : Flatbuffers N) where
  open fb use {Builder, new_builder, create_string, create_byte_vector, as_uint8_array}

  -- The bytes of a builder of initial size 64, after what `m` does with it.
  abbrev pub built : Build Builder (Unit {0}) → Bytes
  built m = as_uint8_array (m (new_builder 64)).1

  -- The message of `type` whose table `create` makes, finished.
  unfoldable pub client_message : UserMessage → Build Builder ℕ → Build Builder (Unit {0})
  client_message type create = do
    p_user_message ← create
    p_client_message ← create_client_message fb (user_message_value type) p_user_message
    finish_client_message_buffer fb p_client_message

  unfoldable pub connect_app_data : String → Bytes
  connect_app_data user_name = built (
      client_message user_connect_message
        (do p_user_name ← create_string user_name; create_user_connect_message fb p_user_name))

  unfoldable pub connect_client_payload : String → String → Bytes
  connect_client_payload backend_address user_name =
      let app_data = connect_app_data user_name in
      built (do
        p_backend_address ← create_string backend_address
        p_app_data ← create_byte_vector app_data
        p_connect_client_message ← create_connect_client_message fb p_backend_address p_app_data
        finish_connect_client_message_buffer fb p_connect_client_message)

  unfoldable pub click_payload : N → N → Bytes
  click_payload x y = built (client_message user_click_message (create_user_click_message fb x y))

  unfoldable pub chat_payload : String → Bytes
  chat_payload chat = built (
      client_message user_chat_message
        (do p_chat ← create_string chat; create_user_chat_message fb p_chat))

  unfoldable pub ping_payload : Bytes
  ping_payload = built (client_message user_ping_message (create_user_ping_message fb))
