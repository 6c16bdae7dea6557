-- ===== src/Wire/ProxyDestCloseConnection.antt =====
-- gen/spanreed-message/proxy-dest-close-connection.ts: `class ProxyDestCloseConnection`.
use spanreed_netcode_proxy.Prelude.{ℕ}
use spanreed_netcode_proxy.Wire.Flatbuffers.{
  Flatbuffers, Table, Build, mutate, get_root, get_size_prefixed_root, field_or, ◌>>◌,
}

module _ {N : Type 0} (fb : Flatbuffers N) where
  open fb use {Builder}

  unfoldable pub get_root_as_proxy_dest_close_connection : fb.ByteBuffer → Table fb
  unfolding get_root
  get_root_as_proxy_dest_close_connection bb = get_root fb bb

  unfoldable pub get_size_prefixed_root_as_proxy_dest_close_connection : fb.ByteBuffer → Table fb
  unfolding get_size_prefixed_root
  get_size_prefixed_root_as_proxy_dest_close_connection bb = get_size_prefixed_root fb bb

  unfoldable pub client_id : Table fb → ℕ
  unfolding field_or
  client_id t = field_or fb 0 4 fb.read_uint32 t

  start_proxy_dest_close_connection : Build Builder (Unit {0})
  start_proxy_dest_close_connection = mutate (fb.start_object 1)

  add_client_id : ℕ → Build Builder (Unit {0})
  add_client_id v = mutate (fb.add_field_int32 0 v 0)

  end_proxy_dest_close_connection : Build Builder ℕ
  end_proxy_dest_close_connection = fb.end_object

  unfoldable pub create_proxy_dest_close_connection : ℕ → Build Builder ℕ
  unfolding start_proxy_dest_close_connection add_client_id end_proxy_dest_close_connection
  create_proxy_dest_close_connection client_id_ = do
    start_proxy_dest_close_connection
    add_client_id client_id_
    end_proxy_dest_close_connection
