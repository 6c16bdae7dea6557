-- ===== src/Proxy/Router/Channels.antt =====
-- pkg/transport/client_connection_router.go: the map of the connections, and what `Start` puts into
-- their channels. The routing of each client takes it from there.
use spanreed_netcode_proxy.Prelude.{
  ℕ, Bool, true, false, Option, none, some, List, [], ◌∷◌, ◌++◌, ◌==◌, is_some, if◌then◌else◌,
}
use spanreed_netcode_proxy.Proxy.Store.{StoreError, duplicate_client_id}
use spanreed_netcode_proxy.Proxy.State.{Error, Message, Verdict}
pub mod Addressing

pub record ClientChannels : Type 0 where
  pub is_connected : Bool
  pub outgoing_messages : List Message
  pub close_requests : List Error
  pub verdicts : List Verdict

abbrev pub ConnectionMap : Type 0
ConnectionMap = List (ℕ × ClientChannels)

abbrev pub channels_of : ℕ → ConnectionMap → Option ClientChannels
channels_of id [] = none
channels_of id ((k, c) ∷ rest) = if k == id then some c else channels_of id rest

abbrev pub change_channels : ℕ → (ClientChannels → ClientChannels) → ConnectionMap → ConnectionMap
change_channels id f [] = []
change_channels id f ((k, c) ∷ rest) =
    if k == id then (k, f c) ∷ rest else (k, c) ∷ change_channels id f rest

abbrev pub new_channels : ClientChannels
new_channels = record {
  is_connected = false;
  outgoing_messages = [];
  close_requests = [];
  verdicts = [];
}

-- `OpenConnection`, of what `GetNextClientId` returned: an error, or the id in the map.
unfoldable pub open_connection :
    Option StoreError × ℕ → ConnectionMap → Option StoreError × ConnectionMap
open_connection (some e, id) t = (some e, t)
open_connection (none, id) t =
    if is_some (channels_of id t)
    then (some (duplicate_client_id id), t)
    else (none, (id, new_channels) ∷ t)

mark_connected : ℕ → ConnectionMap → ConnectionMap
mark_connected id = change_channels id (λ c. record c { is_connected = true })

remove : ℕ → ConnectionMap → ConnectionMap
remove id [] = []
remove id ((k, c) ∷ rest) = if k == id then remove id rest else (k, c) ∷ remove id rest

handle_proxy_close_request : (client_id : ℕ) → Error → ConnectionMap → ConnectionMap
handle_proxy_close_request client_id reason =
    change_channels client_id (λ c. record c { close_requests = c.close_requests ++ reason ∷ [] })

handle_outgoing_message_request : Message → ConnectionMap → ConnectionMap
handle_outgoing_message_request msg =
    change_channels msg.client_id
      (λ c. record c { outgoing_messages = c.outgoing_messages ++ msg ∷ [] })

handle_incoming_verdict : Verdict → ConnectionMap → ConnectionMap
handle_incoming_verdict v =
    change_channels v.client_id (λ c. record c { verdicts = c.verdicts ++ v ∷ [] })

-- A client connects or leaves, its routing finds it connected, or the proxy has something for it.
pub data MapEvent : Type 0 where
  opens : Option StoreError × ℕ → MapEvent
  leaves connects : (client_id : ℕ) → MapEvent
  proxy_close : (client_id : ℕ) → Error → MapEvent
  message_request : Message → MapEvent
  incoming_verdict : Verdict → MapEvent

unfoldable pub step : MapEvent → ConnectionMap → ConnectionMap
unfolding open_connection remove mark_connected handle_proxy_close_request
    handle_outgoing_message_request handle_incoming_verdict
step (opens next) t = (open_connection next t).1
step (leaves id) t = remove id t
step (connects id) t = mark_connected id t
step (proxy_close id reason) t = handle_proxy_close_request id reason t
step (message_request msg) t = handle_outgoing_message_request msg t
step (incoming_verdict v) t = handle_incoming_verdict v t

unfoldable pub run : List MapEvent → ConnectionMap → ConnectionMap
unfolding step
run [] t = t
run (e ∷ es) t = run es (step e t)
