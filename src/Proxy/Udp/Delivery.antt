-- ===== src/Proxy/Udp/Delivery.antt =====
-- What pkg/transport/udp_destination.go passes on from a destination to the proxy.
use spanreed_netcode_proxy.Prelude.{
  ℕ, ◌<◌, ◌≤◌, length, take_all, ◌^◌, ◌≡◌, refl, Bool, false, Option, none, some, [], ◌∷◌, ◌++◌,
  is_some, get_or_else, if◌then◌else◌,
}
use spanreed_netcode_proxy.Wire.Flatbuffers.{Flatbuffers, Bytes}
use spanreed_netcode_proxy.Wire.Flatbuffers.Laws.{Laws}
use spanreed_netcode_proxy.Wire.Flatbuffers.Placing.{AreBytes}
use spanreed_netcode_proxy.Wire.DestinationMessage.RoundTrip.{
  Report, message, verdict, close, client, write_report,
}
use spanreed_netcode_proxy.Proxy.Datagrams.Arriving.{incoming, read_datagram-write_report}
use spanreed_netcode_proxy.Proxy.Udp.{
  UdpDestination, address_of, ToProxy, open_client_verdict, incoming_message,
  destination_close_request, pass_on, on_receive_verdict, on_receive_proxy_message,
  on_receive_close_request, receive, on_datagram,
}

-- What a report is for the proxy, when it comes at a time with data.
abbrev pub passed : (now : ℕ) → Report → Option Bytes → ToProxy
passed now (message id) app_data =
    incoming_message
      (record { client_id = id; recv_timestamp = now; route_timestamp = 0; data_ = app_data })
passed now (verdict id ok) app_data =
    open_client_verdict (record { client_id = id; verdict = ok; error = none; app_data = app_data })
passed now (close id reason) app_data =
    destination_close_request
      (record { client_id = id; reason = get_or_else reason ""; error = none; app_data = app_data })

module _ {Addr : Type 0} where
  pass_on-is_some :
      (o : Option Addr) (p : ToProxy) (d : UdpDestination Addr)
      → pass_on o p d ≡ (if is_some o then record d { to_proxy = d.to_proxy ++ p ∷ [] } else d)
  unfolding pass_on
  pass_on-is_some none p d = refl
  pass_on-is_some (some a) p d = refl

  receive-incoming :
      (now : ℕ) (m : Report) (app_data : Option Bytes) (d : UdpDestination Addr)
      → receive now (some (incoming m), app_data) d ≡ (
          if is_some (address_of (client m) d.destination_connections)
          then record d { to_proxy = d.to_proxy ++ passed now m app_data ∷ [] }
          else d)
  unfolding receive on_receive_verdict on_receive_proxy_message on_receive_close_request
  receive-incoming now (message id) app_data d = pass_on-is_some _ _ d
  receive-incoming now (verdict id ok) app_data d = pass_on-is_some _ _ d
  receive-incoming now (close id reason) app_data d = pass_on-is_some _ _ d

module _ {N : Type 0} (fb : Flatbuffers N) (laws : Laws fb) {Addr : Type 0} where
  not_closed :
      (b : Bool) (d q p : UdpDestination Addr) → b ≡ false → q ≡ p → (if b then d else q) ≡ p
  not_closed b d q p h e = rw h e

  -- Over a runtime that keeps its documented laws: a report that a destination has written, about a
  -- client whose number has 32 bits, with data that are bytes or without, is a datagram of at most
  -- 2048 bytes, which is what the buffer of the proxy holds, and comes to an open socket. If
  -- the client is registered then the proxy is told just that, a message, the verdict or the close
  -- with its reason, and the data; otherwise nothing changes.
  pub on_datagram-write_report :
      (now : ℕ) (m : Report) (app_data : Option Bytes) (d : UdpDestination Addr)
      → client m < 2 ^ 32
      → AreBytes app_data
      → length (write_report fb m app_data) ≤ 2048
      → d.is_closed ≡ false
      → on_datagram fb now (write_report fb m app_data) d ≡ (
          if is_some (address_of (client m) d.destination_connections)
          then record d { to_proxy = d.to_proxy ++ passed now m app_data ∷ [] }
          else d)
  unfolding on_datagram
  on_datagram-write_report now m app_data d lt h fits open_ =
      rw
        (
          take_all 2048 (write_report fb m app_data) fits,
          read_datagram-write_report fb laws m app_data lt h,
        )
        (not_closed d.is_closed d _ _ open_ (receive-incoming now m app_data d))
