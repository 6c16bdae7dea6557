-- ===== src/Wire/UserChatMessage.antt =====
-- gen/hello-spanreed/user-chat-message.ts: `class UserChatMessage`.
use spanreed_netcode_proxy.Prelude.{ℕ, String, Option}
use spanreed_netcode_proxy.Wire.Flatbuffers.{
  Flatbuffers, Table, Build, mutate, get_root, get_size_prefixed_root, string_field, ◌>>◌,
}

module _ {N : Type 0} (fb : Flatbuffers N) where
  open fb use {Builder}

  unfoldable pub get_root_as_user_chat_message : fb.ByteBuffer → Table fb
  unfolding get_root
  get_root_as_user_chat_message bb = get_root fb bb

  unfoldable pub get_size_prefixed_root_as_user_chat_message : fb.ByteBuffer → Table fb
  unfolding get_size_prefixed_root
  get_size_prefixed_root_as_user_chat_message bb = get_size_prefixed_root fb bb

  unfoldable pub text : Table fb → Option String
  unfolding string_field
  text t = string_field fb 4 t

  start_user_chat_message : Build Builder (Unit {0})
  start_user_chat_message = mutate (fb.start_object 1)

  add_text : ℕ → Build Builder (Unit {0})
  add_text v = mutate (fb.add_field_offset 0 v 0)

  end_user_chat_message : Build Builder ℕ
  end_user_chat_message = fb.end_object

  unfoldable pub create_user_chat_message : ℕ → Build Builder ℕ
  unfolding start_user_chat_message add_text end_user_chat_message
  create_user_chat_message text_offset_ = do
    start_user_chat_message
    add_text text_offset_
    end_user_chat_message
