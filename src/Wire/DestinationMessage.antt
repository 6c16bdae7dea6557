-- ===== src/Wire/DestinationMessage.antt =====
-- gen/spanreed-message/destination-message.ts: `class DestinationMessage`.
use spanreed_netcode_proxy.Prelude.{ℕ, Option}
use spanreed_netcode_proxy.Wire.Flatbuffers.{
  Flatbuffers, Table, Bytes, Build, mutate, get_root, get_size_prefixed_root, field_or, union_field,
  byte_field, length_field, bytes_field, create_bytes, ◌>>◌,
}
pub mod RoundTrip

module _ {N : Type 0} (fb : Flatbuffers N) where
  open fb use {Builder}

  unfoldable pub get_root_as_destination_message : fb.ByteBuffer → Table fb
  unfolding get_root
  get_root_as_destination_message bb = get_root fb bb

  unfoldable pub get_size_prefixed_root_as_destination_message : fb.ByteBuffer → Table fb
  unfolding get_size_prefixed_root
  get_size_prefixed_root_as_destination_message bb = get_size_prefixed_root fb bb

  unfoldable pub msg_type : Table fb → ℕ
  unfolding field_or
  msg_type t = field_or fb 0 4 fb.read_uint8 t

  unfoldable pub msg : Table fb → Option (Table fb)
  unfolding union_field
  msg t = union_field fb 6 t

  unfoldable pub app_data : Table fb → ℕ → ℕ
  unfolding byte_field
  app_data t index = byte_field fb 8 t index

  unfoldable pub app_data_length : Table fb → ℕ
  unfolding length_field
  app_data_length t = length_field fb 8 t

  unfoldable pub app_data_array : Table fb → Option Bytes
  unfolding bytes_field
  app_data_array t = bytes_field fb 8 t

  start_destination_message : Build Builder (Unit {0})
  start_destination_message = mutate (fb.start_object 3)

  add_msg_type : ℕ → Build Builder (Unit {0})
  add_msg_type v = mutate (fb.add_field_int8 0 v 0)

  add_msg : ℕ → Build Builder (Unit {0})
  add_msg v = mutate (fb.add_field_offset 1 v 0)

  add_app_data : ℕ → Build Builder (Unit {0})
  add_app_data v = mutate (fb.add_field_offset 2 v 0)

  unfoldable pub create_app_data_vector : Bytes → Build Builder ℕ
  unfolding create_bytes
  create_app_data_vector data_ = create_bytes fb data_

  unfoldable pub start_app_data_vector : ℕ → Build Builder (Unit {0})
  start_app_data_vector num_elems = mutate (fb.start_vector 1 num_elems 1)

  end_destination_message : Build Builder ℕ
  end_destination_message = fb.end_object

  unfoldable pub finish_destination_message_buffer : ℕ → Build Builder (Unit {0})
  finish_destination_message_buffer offset = mutate (fb.finish offset)

  unfoldable pub finish_size_prefixed_destination_message_buffer : ℕ → Build Builder (Unit {0})
  finish_size_prefixed_destination_message_buffer offset = mutate (fb.finish_size_prefixed offset)

  unfoldable pub create_destination_message : ℕ → ℕ → ℕ → Build Builder ℕ
  unfolding start_destination_message add_msg_type add_msg add_app_data end_destination_message
  create_destination_message msg_type_ msg_offset_ app_data_offset_ = do
    start_destination_message
    add_msg_type msg_type_
    add_msg msg_offset_
    add_app_data app_data_offset_
    end_destination_message
