-- ===== src/Proxy/Datagrams/Reading.antt =====
-- What the datagrams of pkg/transport/udp_destination.go read as at the other end.
use spanreed_netcode_proxy.Prelude.{
  ℕ, ◌+◌, ◌<◌, ◌^◌, ◌≡◌, Option, none, some, [], length, get_or_else, arith,
}
use spanreed_netcode_proxy.Wire.Flatbuffers.{Flatbuffers, Bytes, get_root}
use spanreed_netcode_proxy.Wire.Flatbuffers.Objects.{table, Fields}
use spanreed_netcode_proxy.Wire.Flatbuffers.Laws.{Laws}
use spanreed_netcode_proxy.Wire.Flatbuffers.Reading.{StandsOn}
use spanreed_netcode_proxy.Wire.Flatbuffers.Writing.{Builds, starts, ends, adds_offset}
use spanreed_netcode_proxy.Wire.Flatbuffers.Optional.{
  rows, bytes_of, offset_of, entry, Placed, adds_kind,
}
use spanreed_netcode_proxy.Wire.Flatbuffers.Placing.{place, AreBytes, place-vector}
use spanreed_netcode_proxy.Wire.ProxyDestinationMessage.{get_root_as_proxy_destination_message}
use spanreed_netcode_proxy.Wire.ProxyDestinationMessage.RoundTrip.{
  Notice, client, tag, inner_rows, message_rows, create_inner, create_inner-Makes, tag-bounds,
  read_notice, read_notice-StandsOn,
}
use spanreed_netcode_proxy.Proxy.Datagrams.{notice_datagram, add_app_data_if}

module _ {N : Type 0} (fb : Flatbuffers N) (laws : Laws fb) where
  open fb use {Builder, new_builder}

  adds_app_data_if :
      {old b : Builder} {fs : Fields N} (l : Option Bytes) (p : ℕ)
      → Placed fb laws old p (bytes_of l)
      → Builds fb laws old 3 b fs
      → Builds fb laws old 3 (add_app_data_if fb l p b).1 (entry 2 (offset_of (bytes_of l)) fs)
  unfolding add_app_data_if
  adds_app_data_if none p there h = h
  adds_app_data_if (some l) p there h = adds_offset fb laws 2 p _ (omega arith) there h

  notice_datagram-StandsOn :
      (m : Notice) (app_data : Option Bytes)
      → client m < 2 ^ 32
      → AreBytes app_data
      → StandsOn fb laws
          (get_root_as_proxy_destination_message fb
            (fb.new_byte_buffer (notice_datagram fb m app_data)))
          (rows (message_rows fb (tag m) (rows (inner_rows fb m)) (bytes_of app_data)))
  unfolding notice_datagram get_root_as_proxy_destination_message get_root
  notice_datagram-StandsOn m app_data lt h =
      let a = new_builder (64 + length (get_or_else app_data [])) in
      let i = create_inner-Makes fb laws m a (laws.new_builder-Idle _) lt in
      let (p, b) = create_inner fb m a in
      let k = place-vector fb laws app_data b i.idle h in
      let (q, c) = place fb.create_byte_vector app_data b in
      let (small, there) = tag-bounds fb laws m in
      let r = ends fb laws (
        adds_app_data_if app_data q k.placed (
          adds_offset fb laws 1 p (table (rows (inner_rows fb m))) (omega arith) (k.kept p _ i.made)
            (adds_kind fb laws 0 (tag m) (omega arith) small there (starts fb laws 3 k.idle)))) in
      laws.finish-At _ _ _ r.idle r.made

  -- A notice arrives as it was sent.
  pub read_notice-notice_datagram :
      (m : Notice) (app_data : Option Bytes)
      → client m < 2 ^ 32
      → AreBytes app_data
      → read_notice fb (notice_datagram fb m app_data) ≡ (some m, app_data)
  read_notice-notice_datagram m app_data lt h =
      read_notice-StandsOn fb laws m app_data (notice_datagram fb m app_data)
        (notice_datagram-StandsOn m app_data lt h)
