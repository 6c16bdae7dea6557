-- ===== src/Wire/ProxyDestinationMessage.antt =====
-- gen/spanreed-message/proxy-destination-message.ts: `class ProxyDestinationMessage`.
use spanreed_netcode_proxy.Prelude.{ℕ, Option}
use spanreed_netcode_proxy.Wire.Flatbuffers.{
  Flatbuffers, Table, Bytes, Build, mutate, get_root, get_size_prefixed_root, field_or, union_field,
  byte_field, length_field, bytes_field, create_bytes, ◌>>◌,
}
pub mod RoundTrip

module _ {N : Type 0} (fb : Flatbuffers N) where
  open fb use {Builder}

  unfoldable pub get_root_as_proxy_destination_message : fb.ByteBuffer → Table fb
  unfolding get_root
  get_root_as_proxy_destination_message bb = get_root fb bb

  unfoldable pub get_size_prefixed_root_as_proxy_destination_message : fb.ByteBuffer → Table fb
  unfolding get_size_prefixed_root
  get_size_prefixed_root_as_proxy_destination_message bb = get_size_prefixed_root fb bb

  unfoldable pub inner_message_type : Table fb → ℕ
  unfolding field_or
  inner_message_type t = field_or fb 0 4 fb.read_uint8 t

  unfoldable pub inner_message : Table fb → Option (Table fb)
  unfolding union_field
  inner_message t = union_field fb 6 t

  unfoldable pub app_data : Table fb → ℕ → ℕ
  unfolding byte_field
  app_data t index = byte_field fb 8 t index

  unfoldable pub app_data_length : Table fb → ℕ
  unfolding length_field
  app_data_length t = length_field fb 8 t

  unfoldable pub app_data_array : Table fb → Option Bytes
  unfolding bytes_field
  app_data_array t = bytes_field fb 8 t

  start_proxy_destination_message : Build Builder (Unit {0})
  start_proxy_destination_message = mutate (fb.start_object 3)

  add_inner_message_type : ℕ → Build Builder (Unit {0})
  add_inner_message_type v = mutate (fb.add_field_int8 0 v 0)

  add_inner_message : ℕ → Build Builder (Unit {0})
  add_inner_message v = mutate (fb.add_field_offset 1 v 0)

  add_app_data : ℕ → Build Builder (Unit {0})
  add_app_data v = mutate (fb.add_field_offset 2 v 0)

  unfoldable pub create_app_data_vector : Bytes → Build Builder ℕ
  unfolding create_bytes
  create_app_data_vector data_ = create_bytes fb data_

  unfoldable pub start_app_data_vector : ℕ → Build Builder (Unit {0})
  start_app_data_vector num_elems = mutate (fb.start_vector 1 num_elems 1)

  end_proxy_destination_message : Build Builder ℕ
  end_proxy_destination_message = fb.end_object

  unfoldable pub finish_proxy_destination_message_buffer : ℕ → Build Builder (Unit {0})
  finish_proxy_destination_message_buffer offset = mutate (fb.finish offset)

  unfoldable pub finish_size_prefixed_proxy_destination_message_buffer :
      ℕ → Build Builder (Unit {0})
  finish_size_prefixed_proxy_destination_message_buffer offset =
      mutate (fb.finish_size_prefixed offset)

  unfoldable pub create_proxy_destination_message : ℕ → ℕ → ℕ → Build Builder ℕ
  unfolding start_proxy_destination_message add_inner_message_type add_inner_message add_app_data
      end_proxy_destination_message
  create_proxy_destination_message inner_message_type_ inner_message_offset_ app_data_offset_ = do
    start_proxy_destination_message
    add_inner_message_type inner_message_type_
    add_inner_message inner_message_offset_
    add_app_data app_data_offset_
    end_proxy_destination_message
