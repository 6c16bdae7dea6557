-- ===== src/Wire/ConnectClientMessage.antt =====
-- gen/spanreed-message/connect-client-message.ts: `class ConnectClientMessage`.
use spanreed_netcode_proxy.Prelude.{ℕ, String, Option}
use spanreed_netcode_proxy.Wire.Flatbuffers.{
  Flatbuffers, Table, Bytes, Build, mutate, get_root, get_size_prefixed_root, string_field,
  byte_field, length_field, bytes_field, create_bytes, ◌>>◌,
}
pub mod Unpacked

module _ {N : Type 0} (fb : Flatbuffers N) where
  open fb use {Builder}

  unfoldable pub get_root_as_connect_client_message : fb.ByteBuffer → Table fb
  unfolding get_root
  get_root_as_connect_client_message bb = get_root fb bb

  unfoldable pub get_size_prefixed_root_as_connect_client_message : fb.ByteBuffer → Table fb
  unfolding get_size_prefixed_root
  get_size_prefixed_root_as_connect_client_message bb = get_size_prefixed_root fb bb

  unfoldable pub connection_string : Table fb → Option String
  unfolding string_field
  connection_string t = string_field fb 4 t

  unfoldable pub app_data : Table fb → ℕ → ℕ
  unfolding byte_field
  app_data t index = byte_field fb 6 t index

  unfoldable pub app_data_length : Table fb → ℕ
  unfolding length_field
  app_data_length t = length_field fb 6 t

  unfoldable pub app_data_array : Table fb → Option Bytes
  unfolding bytes_field
  app_data_array t = bytes_field fb 6 t

  start_connect_client_message : Build Builder (Unit {0})
  start_connect_client_message = mutate (fb.start_object 2)

  add_connection_string : ℕ → Build Builder (Unit {0})
  add_connection_string v = mutate (fb.add_field_offset 0 v 0)

  add_app_data : ℕ → Build Builder (Unit {0})
  add_app_data v = mutate (fb.add_field_offset 1 v 0)

  unfoldable pub create_app_data_vector : Bytes → Build Builder ℕ
  unfolding create_bytes
  create_app_data_vector data_ = create_bytes fb data_

  unfoldable pub start_app_data_vector : ℕ → Build Builder (Unit {0})
  start_app_data_vector num_elems = mutate (fb.start_vector 1 num_elems 1)

  end_connect_client_message : Build Builder ℕ
  end_connect_client_message = fb.end_object

  unfoldable pub finish_connect_client_message_buffer : ℕ → Build Builder (Unit {0})
  finish_connect_client_message_buffer offset = mutate (fb.finish offset)

  unfoldable pub finish_size_prefixed_connect_client_message_buffer : ℕ → Build Builder (Unit {0})
  finish_size_prefixed_connect_client_message_buffer offset =
      mutate (fb.finish_size_prefixed offset)

  unfoldable pub create_connect_client_message : ℕ → ℕ → Build Builder ℕ
  unfolding start_connect_client_message add_connection_string add_app_data
      end_connect_client_message
  create_connect_client_message connection_string_offset_ app_data_offset_ = do
    start_connect_client_message
    add_connection_string connection_string_offset_
    add_app_data app_data_offset_
    end_connect_client_message
