-- ===== src/Proxy/Udp/Events.antt =====
-- What the goroutines of `Start` of pkg/transport/udp_destination.go wait for, each event one step.
use spanreed_netcode_proxy.Prelude.{ℕ, List, [], ◌∷◌}
use spanreed_netcode_proxy.Wire.Flatbuffers.{Flatbuffers, Bytes}
use spanreed_netcode_proxy.Proxy.State.{Message, OpenCommand}
use spanreed_netcode_proxy.Proxy.Udp.{
  Resolver, UdpParams, UdpDestination, open_client, on_client_message, on_proxy_request_close,
  dispatch, on_datagram, shut_down,
}

pub data UdpEvent : Type 0 where
  open_request : OpenCommand → UdpEvent
  close_request : (client_id : ℕ) → UdpEvent
  message_request : Message → UdpEvent
  datagram : (now : ℕ) → Bytes → UdpEvent
  message_turn : UdpEvent
  done : UdpEvent

module _ {N : Type 0} (fb : Flatbuffers N) {Addr : Type 0} (net : Resolver Addr)
    (params : UdpParams) where
  unfoldable pub step : UdpEvent → UdpDestination Addr → UdpDestination Addr
  step (open_request cmd) d = open_client fb net params cmd d
  step (close_request id) d = on_proxy_request_close fb id d
  step (message_request msg) d = on_client_message fb msg d
  step (datagram now raw_msg) d = on_datagram fb now raw_msg d
  step message_turn d = dispatch d
  step done d = shut_down fb d

  unfoldable pub run : List UdpEvent → UdpDestination Addr → UdpDestination Addr
  unfolding step
  run [] d = d
  run (e ∷ es) d = run es (step e d)
