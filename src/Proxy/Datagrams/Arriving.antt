-- ===== src/Proxy/Datagrams/Arriving.antt =====
-- What pkg/transport/udp_destination.go reads from the datagrams of a destination.
use spanreed_netcode_proxy.Prelude.{◌<◌, ◌^◌, ◌≡◌, refl, Option, some, get_or_else}
use spanreed_netcode_proxy.Wire.Flatbuffers.{Flatbuffers, Bytes, Table}
use spanreed_netcode_proxy.Wire.Flatbuffers.Laws.{Laws}
use spanreed_netcode_proxy.Wire.Flatbuffers.Reading.{StandsOn, int8_field, union_field_table}
use spanreed_netcode_proxy.Wire.Flatbuffers.Optional.{
  rows, lookup-rows, number, flag, bytes_of, number_field, flag_field, string_field_of,
  bytes_field_of,
}
use spanreed_netcode_proxy.Wire.Flatbuffers.Placing.{AreBytes}
use spanreed_netcode_proxy.Wire.DestinationMessage.{
  get_root_as_destination_message, msg_type, msg, app_data_array,
}
use spanreed_netcode_proxy.Wire.DestinationMessage.RoundTrip.{
  Report, message, verdict, close, client, tag, inner_rows, message_rows, write_report,
  write_report-StandsOn,
}
use spanreed_netcode_proxy.Wire.ProxyMessage
use spanreed_netcode_proxy.Wire.ConnectionVerdict
use spanreed_netcode_proxy.Wire.CloseConnection
use spanreed_netcode_proxy.Proxy.Datagrams.{
  Incoming, verdict_of, message_for, close_of, read_datagram, incoming_in, incoming_by,
}

-- What a report is for the proxy.
abbrev pub incoming : Report → Incoming
incoming (message id) = message_for id
incoming (verdict id ok) = verdict_of id ok
incoming (close id reason) = close_of id (get_or_else reason "")

module _ {N : Type 0} (fb : Flatbuffers N) (laws : Laws fb) where
  incoming_by-tag :
      (m : Report) (u : Table fb)
      → StandsOn fb laws u (rows (inner_rows fb m))
      → incoming_by fb (tag m) u ≡ some (incoming m)
  unfolding incoming_by ProxyMessage.client_id ConnectionVerdict.client_id
      ConnectionVerdict.accepted CloseConnection.client_id CloseConnection.reason
  incoming_by-tag (message id) u here =
      let cs = inner_rows fb (message id) in
      rw (number_field fb laws 0 u (rows cs) here id (lookup-rows cs 0 (number id) refl)) refl
  incoming_by-tag (verdict id ok) u here =
      let cs = inner_rows fb (verdict id ok) in
      rw
        (
          number_field fb laws 0 u (rows cs) here id (lookup-rows cs 0 (number id) refl),
          flag_field fb laws 1 u (rows cs) here ok (lookup-rows cs 1 (flag ok) refl),
        )
        refl
  incoming_by-tag (close id reason) u here =
      let cs = inner_rows fb (close id reason) in
      rw
        (
          number_field fb laws 0 u (rows cs) here id (lookup-rows cs 0 (number id) refl),
          string_field_of fb laws 1 u (rows cs) here reason (lookup-rows cs 1 _ refl),
        )
        refl

  -- The datagram of a report is read as the report.
  pub read_datagram-write_report :
      (m : Report) (app_data : Option Bytes)
      → client m < 2 ^ 32
      → AreBytes app_data
      → read_datagram fb (write_report fb m app_data) ≡ (some (incoming m), app_data)
  unfolding read_datagram incoming_in msg_type msg app_data_array
  read_datagram-write_report m app_data lt h =
      let t =
        get_root_as_destination_message fb (fb.new_byte_buffer (write_report fb m app_data)) in
      let fs = rows (inner_rows fb m) in
      let cs = message_rows fb (tag m) fs (bytes_of app_data) in
      let here = write_report-StandsOn fb laws m app_data lt h in
      let (u, e, inner) =
        union_field_table fb laws 1 t (rows cs) here fs (lookup-rows cs 1 _ refl) in
      rw
        (
          int8_field fb laws 0 t (rows cs) here 0 (tag m) (lookup-rows cs 0 _ refl),
          e,
          incoming_by-tag m u inner,
          bytes_field_of fb laws 2 t (rows cs) here app_data (lookup-rows cs 2 _ refl),
        )
        refl
