-- ===== src/Wire/ConnectionVerdict.antt =====
-- gen/spanreed-message/connection-verdict.ts: `class ConnectionVerdict`.
use spanreed_netcode_proxy.Prelude.{ℕ, Bool, false, not, ◌==◌, if◌then◌else◌}
use spanreed_netcode_proxy.Wire.Flatbuffers.{
  Flatbuffers, Table, Build, mutate, get_root, get_size_prefixed_root, field_or, ◌>>◌,
}

module _ {N : Type 0} (fb : Flatbuffers N) where
  open fb use {Builder}

  unfoldable pub get_root_as_connection_verdict : fb.ByteBuffer → Table fb
  unfolding get_root
  get_root_as_connection_verdict bb = get_root fb bb

  unfoldable pub get_size_prefixed_root_as_connection_verdict : fb.ByteBuffer → Table fb
  unfolding get_size_prefixed_root
  get_size_prefixed_root_as_connection_verdict bb = get_size_prefixed_root fb bb

  unfoldable pub client_id : Table fb → ℕ
  unfolding field_or
  client_id t = field_or fb 0 4 fb.read_uint32 t

  unfoldable pub accepted : Table fb → Bool
  unfolding field_or
  accepted t = field_or fb false 6 (λ bb p. not (fb.read_int8 bb p == 0)) t

  start_connection_verdict : Build Builder (Unit {0})
  start_connection_verdict = mutate (fb.start_object 2)

  add_client_id : ℕ → Build Builder (Unit {0})
  add_client_id v = mutate (fb.add_field_int32 0 v 0)

  add_accepted : Bool → Build Builder (Unit {0})
  add_accepted v = mutate (fb.add_field_int8 1 (if v then 1 else 0) 0)

  end_connection_verdict : Build Builder ℕ
  end_connection_verdict = fb.end_object

  unfoldable pub create_connection_verdict : ℕ → Bool → Build Builder ℕ
  unfolding start_connection_verdict add_client_id add_accepted end_connection_verdict
  create_connection_verdict client_id_ accepted_ = do
    start_connection_verdict
    add_client_id client_id_
    add_accepted accepted_
    end_connection_verdict
