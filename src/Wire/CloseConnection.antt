-- ===== src/Wire/CloseConnection.antt =====
-- gen/spanreed-message/close-connection.ts: `class CloseConnection`.
use spanreed_netcode_proxy.Prelude.{ℕ, String, Option}
use spanreed_netcode_proxy.Wire.Flatbuffers.{
  Flatbuffers, Table, Build, mutate, get_root, get_size_prefixed_root, field_or, string_field, ◌>>◌,
}

module _ {N : Type 0} (fb : Flatbuffers N) where
  open fb use {Builder}

  unfoldable pub get_root_as_close_connection : fb.ByteBuffer → Table fb
  unfolding get_root
  get_root_as_close_connection bb = get_root fb bb

  unfoldable pub get_size_prefixed_root_as_close_connection : fb.ByteBuffer → Table fb
  unfolding get_size_prefixed_root
  get_size_prefixed_root_as_close_connection bb = get_size_prefixed_root fb bb

  unfoldable pub client_id : Table fb → ℕ
  unfolding field_or
  client_id t = field_or fb 0 4 fb.read_uint32 t

  unfoldable pub reason : Table fb → Option String
  unfolding string_field
  reason t = string_field fb 6 t

  start_close_connection : Build Builder (Unit {0})
  start_close_connection = mutate (fb.start_object 2)

  add_client_id : ℕ → Build Builder (Unit {0})
  add_client_id v = mutate (fb.add_field_int32 0 v 0)

  add_reason : ℕ → Build Builder (Unit {0})
  add_reason v = mutate (fb.add_field_offset 1 v 0)

  end_close_connection : Build Builder ℕ
  end_close_connection = fb.end_object

  unfoldable pub create_close_connection : ℕ → ℕ → Build Builder ℕ
  unfolding start_close_connection add_client_id add_reason end_close_connection
  create_close_connection client_id_ reason_offset_ = do
    start_close_connection
    add_client_id client_id_
    add_reason reason_offset_
    end_close_connection
