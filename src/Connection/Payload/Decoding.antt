-- ===== src/Connection/Payload/Decoding.antt =====
-- A reader of the client's messages, by the generated classes of
-- examples/hello-spanreed/client/src/gen. The readers of the system are the proxy and the demo
-- server, which are other programs; this one says what a message is to mean.
use spanreed_netcode_proxy.Prelude.{ℕ, ◌==◌, String, Option, none, some, if◌then◌else◌}
use spanreed_netcode_proxy.Wire.Flatbuffers.{Flatbuffers, Bytes, Table}
use spanreed_netcode_proxy.Wire.ConnectClientMessage
use spanreed_netcode_proxy.Wire.ClientMessage
use spanreed_netcode_proxy.Wire.UserMessage.{
  user_message_value, user_connect_message, user_click_message, user_chat_message,
  user_ping_message,
}
use spanreed_netcode_proxy.Wire.UserConnectMessage
use spanreed_netcode_proxy.Wire.UserClickMessage
use spanreed_netcode_proxy.Wire.UserChatMessage

-- What a user does, as the server is told.
pub data Told (N : Type 0) : Type 0 where
  connect : (name : Option String) → Told N
  click : (x y : N) → Told N
  chat : (text : Option String) → Told N
  ping : Told N

module _ {N : Type 0} (fb : Flatbuffers N) (zero_ : N) where
  -- `zero_` is the number that an absent coordinate reads as.
  abbrev pub told_by : ℕ → Table fb → Option (Told N)
  told_by type u =
      if type == user_message_value user_connect_message
      then some (connect (UserConnectMessage.name fb u))
      else if type == user_message_value user_click_message
      then some (click (UserClickMessage.x fb zero_ u) (UserClickMessage.y fb zero_ u))
      else if type == user_message_value user_chat_message
      then some (chat (UserChatMessage.text fb u))
      else if type == user_message_value user_ping_message
      then some ping
      else none

  abbrev pub told_in : ℕ → Option (Table fb) → Option (Told N)
  told_in type none = none
  told_in type (some u) = told_by type u

  unfoldable pub decode : Bytes → Option (Told N)
  decode message =
      let t = ClientMessage.get_root_as_client_message fb (fb.new_byte_buffer message) in
      told_in (ClientMessage.user_message_type fb t) (ClientMessage.user_message fb t)

-- The backend that a connection request names, and its message for that backend.
unfoldable pub decode_request :
    {N : Type 0} (fb : Flatbuffers N) → Bytes → Option String × Option Bytes
decode_request fb message =
    let t =
      ConnectClientMessage.get_root_as_connect_client_message fb (fb.new_byte_buffer message) in
    (ConnectClientMessage.connection_string fb t, ConnectClientMessage.app_data_array fb t)
