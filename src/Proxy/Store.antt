-- ===== src/Proxy/Store.antt =====
-- internal/client_store.go: the clients that the proxy knows. A map is the list of its entries; the
-- locks make each operation one step. A time is a number of microseconds since the start. A
-- deadline that would be negative is 0, and no time is below either.
use spanreed_netcode_proxy.Prelude.{
  ℕ, ◌+◌, ◌%◌, ◌^◌, Bool, true, false, not, ◌&&◌, ◌||◌, String, Option, none, some, List, [], ◌∷◌,
  ◌==◌, ltb, leb, length, is_some, if◌then◌else◌,
}
pub mod Bounds
pub mod Timeouts

pub data StoreError : Type 0 where
  duplicate_client_id missing_client_id : (id : ℕ) → StoreError
  too_many_clients : StoreError

pub record ClientConnectionMetadata : Type 0 where
  pub is_connected : Bool
  pub client_handler_name : String
  pub destination_handler_name : String
  pub created_time : ℕ
  pub last_client_msg_time : ℕ
  pub last_destination_msg_time : ℕ

abbrev pub Connections : Type 0
Connections = List (ℕ × ClientConnectionMetadata)

pub record ClientStore : Type 0 where
  pub max_connections : ℕ
  pub next_client_id : ℕ
  pub client_connections : Connections

-- The entry of an id in the map, if it has one.
abbrev pub find : ℕ → Connections → Option ClientConnectionMetadata
find id [] = none
find id ((k, m) ∷ rest) = if k == id then some m else find id rest

-- `delete(m, id)`
abbrev pub without : ℕ → Connections → Connections
without id [] = []
without id ((k, m) ∷ rest) = if k == id then without id rest else (k, m) ∷ without id rest

-- The entry of an id is changed in place.
abbrev pub change :
    ℕ → (ClientConnectionMetadata → ClientConnectionMetadata) → Connections → Connections
change id f [] = []
change id f ((k, m) ∷ rest) = if k == id then (k, f m) ∷ rest else (k, m) ∷ change id f rest

abbrev pub create_client_store : ℕ → ClientStore
create_client_store max_connections_ = record {
  max_connections = max_connections_;
  next_client_id = 0;
  client_connections = [];
}

-- `Add` of an `atomic.Uint32` wraps around.
abbrev pub get_new_client_id : ClientStore → ℕ × ClientStore
get_new_client_id store =
    let id = (store.next_client_id + 1) % 2 ^ 32 in (id, record store { next_client_id = id })

abbrev pub has_client : ℕ → ClientStore → Bool
has_client id store = is_some (find id store.client_connections)

-- An operation that can fail returns its error and the store.
abbrev pub create_client : ℕ → String → ℕ → ClientStore → Option StoreError × ClientStore
create_client id handler_name timestamp store =
    if has_client id store
    then (some (duplicate_client_id id), store)
    else if leb store.max_connections (length store.client_connections)
    then (some too_many_clients, store)
    else (
      none,
      record store {
        client_connections =
            (
              id,
              record {
                is_connected = false;
                client_handler_name = handler_name;
                destination_handler_name = "";
                created_time = timestamp;
                last_client_msg_time = timestamp;
                last_destination_msg_time = timestamp;
              },
            )
            ∷ store.client_connections;
      },
    )

abbrev pub remove_client : ℕ → ClientStore → ClientStore
remove_client id store = record store { client_connections = without id store.client_connections }

-- What the setters share: they fail if the client is missing.
abbrev pub set_client :
    ℕ
    → (ClientConnectionMetadata → ClientConnectionMetadata)
    → ClientStore
    → Option StoreError × ClientStore
set_client id f store =
    if has_client id store
    then (none, record store { client_connections = change id f store.client_connections })
    else (some (missing_client_id id), store)

abbrev pub connect : ℕ → ClientStore → Option StoreError × ClientStore
connect id = set_client id (λ m. record m { is_connected = true })

-- `IsConnected` does not read the flag.
abbrev pub is_connected_client : ℕ → ClientStore → Bool
is_connected_client id store = has_client id store

abbrev pub set_destination_handler_name : ℕ → String → ClientStore → Option StoreError × ClientStore
set_destination_handler_name id name =
    set_client id (λ m. record m { destination_handler_name = name })

abbrev pub set_client_recv_timestamp : ℕ → ℕ → ClientStore → Option StoreError × ClientStore
set_client_recv_timestamp id t = set_client id (λ m. record m { last_client_msg_time = t })

abbrev pub set_destination_recv_timestamp : ℕ → ℕ → ClientStore → Option StoreError × ClientStore
set_destination_recv_timestamp id t =
    set_client id (λ m. record m { last_destination_msg_time = t })

-- The name, or nothing for the error that the client is missing.
abbrev name_of :
    (ClientConnectionMetadata → String) → Option ClientConnectionMetadata → Option String
name_of f none = none
name_of f (some m) = some (f m)

abbrev pub get_destination_handler_name : ℕ → ClientStore → Option String
get_destination_handler_name id store =
    name_of ClientConnectionMetadata.destination_handler_name (find id store.client_connections)

abbrev pub get_client_handler_name : ℕ → ClientStore → Option String
get_client_handler_name id store =
    name_of ClientConnectionMetadata.client_handler_name (find id store.client_connections)

-- The ids of the entries for which a test holds.
abbrev pub ids_where : (ClientConnectionMetadata → Bool) → Connections → List ℕ
ids_where test [] = []
ids_where test ((k, m) ∷ rest) = if test m then k ∷ ids_where test rest else ids_where test rest

abbrev pub is_timed_out :
    (client_msg_deadline destination_msg_deadline connection_deadline : ℕ)
    → ClientConnectionMetadata
    → Bool
is_timed_out client_msg_deadline destination_msg_deadline connection_deadline m =
    ltb m.created_time connection_deadline
    || (ltb m.last_client_msg_time client_msg_deadline
        || ltb m.last_destination_msg_time destination_msg_deadline)

abbrev pub get_timeout_client_list :
    (client_msg_deadline destination_msg_deadline connection_deadline : ℕ) → ClientStore → List ℕ
get_timeout_client_list c d l store = ids_where (is_timed_out c d l) store.client_connections

abbrev pub is_auth_timed_out : (connect_deadline : ℕ) → ClientConnectionMetadata → Bool
is_auth_timed_out connect_deadline m = not m.is_connected && ltb m.created_time connect_deadline

abbrev pub get_auth_timeout_client_list : (connect_deadline : ℕ) → ClientStore → List ℕ
get_auth_timeout_client_list deadline store =
    ids_where (is_auth_timed_out deadline) store.client_connections

-- An error of the callback ends the loop, with the clients that are left.
abbrev stop_on :
    {S E : Type 0}
    → Option E
    → Connections
    → S
    → Option E × Connections × S
    → Option E × Connections × S
stop_on none left s later = later
stop_on (some e) left s later = (some e, left, s)

-- The callback is called on each client, which then is deleted, until it returns an error.
abbrev pub kick_all :
    {S E : Type 0}
    → (ℕ → ClientConnectionMetadata → S → Option E × S)
    → Connections
    → S
    → Option E × Connections × S
kick_all cb [] s = (none, [], s)
kick_all cb ((k, m) ∷ rest) s =
    let (e, s') = cb k m s in stop_on e ((k, m) ∷ rest) s' (kick_all cb rest s')
