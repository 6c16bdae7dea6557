-- ===== src/Wire/ClientMessage.antt =====
-- gen/hello-spanreed/client-message.ts: `class ClientMessage`.
use spanreed_netcode_proxy.Prelude.{ℕ, Option}
use spanreed_netcode_proxy.Wire.Flatbuffers.{
  Flatbuffers, Table, Build, mutate, get_root, get_size_prefixed_root, field_or, union_field, ◌>>◌,
}

module _ {N : Type 0} (fb : Flatbuffers N) where
  open fb use {Builder}

  unfoldable pub get_root_as_client_message : fb.ByteBuffer → Table fb
  unfolding get_root
  get_root_as_client_message bb = get_root fb bb

  unfoldable pub get_size_prefixed_root_as_client_message : fb.ByteBuffer → Table fb
  unfolding get_size_prefixed_root
  get_size_prefixed_root_as_client_message bb = get_size_prefixed_root fb bb

  unfoldable pub user_message_type : Table fb → ℕ
  unfolding field_or
  user_message_type t = field_or fb 0 4 fb.read_uint8 t

  unfoldable pub user_message : Table fb → Option (Table fb)
  unfolding union_field
  user_message t = union_field fb 6 t

  start_client_message : Build Builder (Unit {0})
  start_client_message = mutate (fb.start_object 2)

  add_user_message_type : ℕ → Build Builder (Unit {0})
  add_user_message_type v = mutate (fb.add_field_int8 0 v 0)

  add_user_message : ℕ → Build Builder (Unit {0})
  add_user_message v = mutate (fb.add_field_offset 1 v 0)

  end_client_message : Build Builder ℕ
  end_client_message = fb.end_object

  unfoldable pub finish_client_message_buffer : ℕ → Build Builder (Unit {0})
  finish_client_message_buffer offset = mutate (fb.finish offset)

  unfoldable pub finish_size_prefixed_client_message_buffer : ℕ → Build Builder (Unit {0})
  finish_size_prefixed_client_message_buffer offset = mutate (fb.finish_size_prefixed offset)

  unfoldable pub create_client_message : ℕ → ℕ → Build Builder ℕ
  unfolding start_client_message add_user_message_type add_user_message end_client_message
  create_client_message user_message_type_ user_message_offset_ = do
    start_client_message
    add_user_message_type user_message_type_
    add_user_message user_message_offset_
    end_client_message
