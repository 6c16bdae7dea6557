-- ===== src/Wire/ServerMessage.antt =====
-- gen/hello-spanreed/server-message.ts and message.ts: `class ServerMessage`, and the values of `enum Message`.
use spanreed_netcode_proxy.Prelude.{ℕ, Option}
use spanreed_netcode_proxy.Wire.Flatbuffers.{
  Flatbuffers, Table, Build, mutate, get_root, get_size_prefixed_root, field_or, union_field, ◌>>◌,
}
use spanreed_netcode_proxy.Wire.Message.{Message, message_value}

module _ {N : Type 0} (fb : Flatbuffers N) where
  open fb use {Builder}

  unfoldable pub get_root_as_server_message : fb.ByteBuffer → Table fb
  unfolding get_root
  get_root_as_server_message bb = get_root fb bb

  unfoldable pub get_size_prefixed_root_as_server_message : fb.ByteBuffer → Table fb
  unfolding get_size_prefixed_root
  get_size_prefixed_root_as_server_message bb = get_size_prefixed_root fb bb

  unfoldable pub message_type : Table fb → ℕ
  unfolding field_or
  message_type t = field_or fb 0 4 fb.read_uint8 t

  unfoldable pub message : Table fb → Option (Table fb)
  unfolding union_field
  message t = union_field fb 6 t

  start_server_message : Build Builder (Unit {0})
  start_server_message = mutate (fb.start_object 2)

  add_message_type : ℕ → Build Builder (Unit {0})
  add_message_type v = mutate (fb.add_field_int8 0 v 0)

  add_message : ℕ → Build Builder (Unit {0})
  add_message v = mutate (fb.add_field_offset 1 v 0)

  end_server_message : Build Builder ℕ
  end_server_message = fb.end_object

  unfoldable pub finish_server_message_buffer : ℕ → Build Builder (Unit {0})
  finish_server_message_buffer offset = mutate (fb.finish offset)

  unfoldable pub finish_size_prefixed_server_message_buffer : ℕ → Build Builder (Unit {0})
  finish_size_prefixed_server_message_buffer offset = mutate (fb.finish_size_prefixed offset)

  unfoldable pub create_server_message : ℕ → ℕ → Build Builder ℕ
  unfolding start_server_message add_message_type add_message end_server_message
  create_server_message message_type_ message_offset_ = do
    start_server_message
    add_message_type message_type_
    add_message message_offset_
    end_server_message

-- The values of the two types on the wire.
abbrev pub server_chat_message : ℕ
server_chat_message = message_value Message.server_chat_message

abbrev pub server_game_state_message : ℕ
server_game_state_message = message_value Message.server_game_state_message
