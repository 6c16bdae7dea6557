-- ===== src/Wire/ConnectClientVerdict.antt =====
-- gen/spanreed-message/connect-client-verdict.ts: `class ConnectClientVerdict`.
use spanreed_netcode_proxy.Prelude.{ℕ, String, Option, Bool, false, not, ◌==◌, if◌then◌else◌}
use spanreed_netcode_proxy.Wire.Flatbuffers.{
  Flatbuffers, Table, Bytes, Build, mutate, get_root, get_size_prefixed_root, field_or,
  string_field, byte_field, length_field, bytes_field, create_bytes, ◌>>◌,
}
pub mod RoundTrip

module _ {N : Type 0} (fb : Flatbuffers N) where
  open fb use {Builder}

  unfoldable pub get_root_as_connect_client_verdict : fb.ByteBuffer → Table fb
  unfolding get_root
  get_root_as_connect_client_verdict bb = get_root fb bb

  unfoldable pub get_size_prefixed_root_as_connect_client_verdict : fb.ByteBuffer → Table fb
  unfolding get_size_prefixed_root
  get_size_prefixed_root_as_connect_client_verdict bb = get_size_prefixed_root fb bb

  unfoldable pub accepted : Table fb → Bool
  unfolding field_or
  accepted t = field_or fb false 4 (λ bb p. not (fb.read_int8 bb p == 0)) t

  unfoldable pub error_reason : Table fb → Option String
  unfolding string_field
  error_reason t = string_field fb 6 t

  unfoldable pub app_data : Table fb → ℕ → ℕ
  unfolding byte_field
  app_data t index = byte_field fb 8 t index

  unfoldable pub app_data_length : Table fb → ℕ
  unfolding length_field
  app_data_length t = length_field fb 8 t

  unfoldable pub app_data_array : Table fb → Option Bytes
  unfolding bytes_field
  app_data_array t = bytes_field fb 8 t

  start_connect_client_verdict : Build Builder (Unit {0})
  start_connect_client_verdict = mutate (fb.start_object 3)

  add_accepted : Bool → Build Builder (Unit {0})
  add_accepted v = mutate (fb.add_field_int8 0 (if v then 1 else 0) 0)

  add_error_reason : ℕ → Build Builder (Unit {0})
  add_error_reason v = mutate (fb.add_field_offset 1 v 0)

  add_app_data : ℕ → Build Builder (Unit {0})
  add_app_data v = mutate (fb.add_field_offset 2 v 0)

  unfoldable pub create_app_data_vector : Bytes → Build Builder ℕ
  unfolding create_bytes
  create_app_data_vector data_ = create_bytes fb data_

  unfoldable pub start_app_data_vector : ℕ → Build Builder (Unit {0})
  start_app_data_vector num_elems = mutate (fb.start_vector 1 num_elems 1)

  end_connect_client_verdict : Build Builder ℕ
  end_connect_client_verdict = fb.end_object

  unfoldable pub finish_connect_client_verdict_buffer : ℕ → Build Builder (Unit {0})
  finish_connect_client_verdict_buffer offset = mutate (fb.finish offset)

  unfoldable pub finish_size_prefixed_connect_client_verdict_buffer : ℕ → Build Builder (Unit {0})
  finish_size_prefixed_connect_client_verdict_buffer offset =
      mutate (fb.finish_size_prefixed offset)

  unfoldable pub create_connect_client_verdict : Bool → ℕ → ℕ → Build Builder ℕ
  unfolding start_connect_client_verdict add_accepted add_error_reason add_app_data
      end_connect_client_verdict
  create_connect_client_verdict accepted_ error_reason_offset_ app_data_offset_ = do
    start_connect_client_verdict
    add_accepted accepted_
    add_error_reason error_reason_offset_
    add_app_data app_data_offset_
    end_connect_client_verdict
