-- ===== src/Proxy/Datagrams.antt =====
-- The datagrams of pkg/transport/udp_destination.go. The Go package `flatbuffers` has the builder
-- of the runtime that Wire/Flatbuffers stands for, and the functions that are generated for Go from
-- the schemas call it as those of Wire do.
use spanreed_netcode_proxy.Prelude.{
  ℕ, ◌+◌, Bool, String, Option, none, some, [], length, get_or_else, ◌==◌, if◌then◌else◌,
}
use spanreed_netcode_proxy.Wire.Flatbuffers.{Flatbuffers, Bytes, Build, Table, mutate, ◌>>=◌, ◌>>◌}
use spanreed_netcode_proxy.Wire.Flatbuffers.Placing.{place}
use spanreed_netcode_proxy.Wire.ProxyDestinationMessage.RoundTrip.{Notice, tag, create_inner}
use spanreed_netcode_proxy.Wire.DestinationMessage
use spanreed_netcode_proxy.Wire.ProxyMessage
use spanreed_netcode_proxy.Wire.ConnectionVerdict
use spanreed_netcode_proxy.Wire.CloseConnection
use spanreed_netcode_proxy.Wire.InnerMsg.{
  inner_msg_value, proxy_message, connection_verdict, close_connection,
}
pub mod Reading
pub mod Arriving

-- What is read from a datagram of a destination. An absent reason is the empty text in Go.
pub data Incoming : Type 0 where
  verdict_of : (client_id : ℕ) (accepted : Bool) → Incoming
  message_for : (client_id : ℕ) → Incoming
  close_of : (client_id : ℕ) (reason : String) → Incoming

module _ {N : Type 0} (fb : Flatbuffers N) where
  open fb use {Builder, new_builder}

  -- Application data of `nil` are not added.
  add_app_data_if : Option Bytes → ℕ → Build Builder (Unit {0})
  add_app_data_if none p = mutate (λ b. b)
  add_app_data_if (some l) p = mutate (fb.add_field_offset 2 p 0)

  -- The datagram for a notice: its table, the application data, and the message around them.
  unfoldable pub notice_datagram : Notice → Option Bytes → Bytes
  unfolding add_app_data_if
  notice_datagram m app_data =
      fb.as_uint8_array
        ((do
          inner_msg ← create_inner fb m
          app_data_loc ← place fb.create_byte_vector app_data
          mutate (fb.start_object 3)
          mutate (fb.add_field_int8 0 (tag m) 0)
          mutate (fb.add_field_offset 1 inner_msg 0)
          add_app_data_if app_data app_data_loc
          cmsg ← fb.end_object
          mutate (fb.finish cmsg))
          (new_builder (64 + length (get_or_else app_data [])))).1

  -- The switch on the type of the message.
  incoming_by : ℕ → Table fb → Option Incoming
  incoming_by type u =
      if type == inner_msg_value connection_verdict
      then some (verdict_of (ConnectionVerdict.client_id fb u) (ConnectionVerdict.accepted fb u))
      else if type == inner_msg_value proxy_message
      then some (message_for (ProxyMessage.client_id fb u))
      else if type == inner_msg_value close_connection
      then some
          (close_of (CloseConnection.client_id fb u) (get_or_else (CloseConnection.reason fb u) ""))
      else none

  -- `parsedMsg.Msg(ut)` is false if there is no inner message.
  incoming_in : ℕ → Option (Table fb) → Option Incoming
  unfolding incoming_by
  incoming_in type none = none
  incoming_in type (some u) = incoming_by type u

  -- What a datagram says, if anything, and its application data.
  unfoldable pub read_datagram : Bytes → Option Incoming × Option Bytes
  unfolding incoming_in
  read_datagram raw_msg =
      let parsed_msg =
        DestinationMessage.get_root_as_destination_message fb (fb.new_byte_buffer raw_msg) in
      (
        incoming_in (DestinationMessage.msg_type fb parsed_msg)
            (DestinationMessage.msg fb parsed_msg),
        DestinationMessage.app_data_array fb parsed_msg,
      )
