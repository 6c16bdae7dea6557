-- ===== src/Wire/ServerChatMessage.antt =====
-- gen/hello-spanreed/server-chat-message.ts: `class ServerChatMessage`.
use spanreed_netcode_proxy.Prelude.{ℕ, String, Option}
use spanreed_netcode_proxy.Wire.Flatbuffers.{
  Flatbuffers, Table, Build, mutate, get_root, get_size_prefixed_root, string_field, ◌>>◌,
}

module _ {N : Type 0} (fb : Flatbuffers N) where
  open fb use {Builder}

  unfoldable pub get_root_as_server_chat_message : fb.ByteBuffer → Table fb
  unfolding get_root
  get_root_as_server_chat_message bb = get_root fb bb

  unfoldable pub get_size_prefixed_root_as_server_chat_message : fb.ByteBuffer → Table fb
  unfolding get_size_prefixed_root
  get_size_prefixed_root_as_server_chat_message bb = get_size_prefixed_root fb bb

  unfoldable pub user : Table fb → Option String
  unfolding string_field
  user t = string_field fb 4 t

  unfoldable pub text : Table fb → Option String
  unfolding string_field
  text t = string_field fb 6 t

  start_server_chat_message : Build Builder (Unit {0})
  start_server_chat_message = mutate (fb.start_object 2)

  add_user : ℕ → Build Builder (Unit {0})
  add_user v = mutate (fb.add_field_offset 0 v 0)

  add_text : ℕ → Build Builder (Unit {0})
  add_text v = mutate (fb.add_field_offset 1 v 0)

  end_server_chat_message : Build Builder ℕ
  end_server_chat_message = fb.end_object

  unfoldable pub create_server_chat_message : ℕ → ℕ → Build Builder ℕ
  unfolding start_server_chat_message add_user add_text end_server_chat_message
  create_server_chat_message user_offset_ text_offset_ = do
    start_server_chat_message
    add_user user_offset_
    add_text text_offset_
    end_server_chat_message
