-- ===== src/Wire/UserConnectMessage.antt =====
-- gen/hello-spanreed/user-connect-message.ts: `class UserConnectMessage`.
use spanreed_netcode_proxy.Prelude.{ℕ, String, Option}
use spanreed_netcode_proxy.Wire.Flatbuffers.{
  Flatbuffers, Table, Build, mutate, get_root, get_size_prefixed_root, string_field, ◌>>◌,
}

module _ {N : Type 0} (fb : Flatbuffers N) where
  open fb use {Builder}

  unfoldable pub get_root_as_user_connect_message : fb.ByteBuffer → Table fb
  unfolding get_root
  get_root_as_user_connect_message bb = get_root fb bb

  unfoldable pub get_size_prefixed_root_as_user_connect_message : fb.ByteBuffer → Table fb
  unfolding get_size_prefixed_root
  get_size_prefixed_root_as_user_connect_message bb = get_size_prefixed_root fb bb

  unfoldable pub name : Table fb → Option String
  unfolding string_field
  name t = string_field fb 4 t

  start_user_connect_message : Build Builder (Unit {0})
  start_user_connect_message = mutate (fb.start_object 1)

  add_name : ℕ → Build Builder (Unit {0})
  add_name v = mutate (fb.add_field_offset 0 v 0)

  end_user_connect_message : Build Builder ℕ
  end_user_connect_message = fb.end_object

  unfoldable pub create_user_connect_message : ℕ → Build Builder ℕ
  unfolding start_user_connect_message add_name end_user_connect_message
  create_user_connect_message name_offset_ = do
    start_user_connect_message
    add_name name_offset_
    end_user_connect_message
