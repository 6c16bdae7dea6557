-- ===== src/Proxy/Store/Timeouts.antt =====
-- The clients that internal/client_store.go lists as timed out.
use spanreed_netcode_proxy.Prelude.{
  ℕ, ◌≡◌, refl, Bool, true, false, Option, none, some, List, [], ◌∷◌, ◌==◌, if◌then◌else◌, arith,
}
use spanreed_netcode_proxy.Canvas.Frames.{contains}
use spanreed_netcode_proxy.Proxy.Store.{
  ClientConnectionMetadata, Connections, find, without, ids_where,
}
use spanreed_netcode_proxy.Proxy.Store.Bounds.{AreDistinct, find-without_other}

abbrev pub remove_clients : List ℕ → Connections → Connections
remove_clients [] l = l
remove_clients (id ∷ ids) l = remove_clients ids (without id l)

module _ (test : ClientConnectionMetadata → Bool) where
  -- The entry of an id, if the test fails for it.
  abbrev pub unless : Option ClientConnectionMetadata → Option ClientConnectionMetadata
  unless none = none
  unless (some m) = if test m then none else some m

  contains-ids_where_absent :
      (id : ℕ) (l : Connections) → find id l ≡ none → contains id (ids_where test l) ≡ false
  contains-ids_where_absent id [] h = refl
  contains-ids_where_absent id ((k, m) ∷ rest) h = ground (arith, contains-ids_where_absent id rest)

  -- A client is listed exactly if the test holds for it.
  pub find-unless :
      (id : ℕ) (l : Connections)
      → AreDistinct l
      → (if contains id (ids_where test l) then none else find id l) ≡ unless (find id l)
  find-unless id [] d = refl
  find-unless id ((k, m) ∷ rest) (new, d) =
      ground (arith, find-unless id rest d, contains-ids_where_absent id rest, new)

find-without_same : (k id : ℕ) (l : Connections) → (k == id) ≡ true → find id (without k l) ≡ none
find-without_same k id [] h = refl
find-without_same k id ((j, m) ∷ rest) h = ground (arith, find-without_same k id rest h)

pub find-remove_clients :
    (id : ℕ) (ids : List ℕ) (l : Connections)
    → find id (remove_clients ids l) ≡ (if contains id ids then none else find id l)
find-remove_clients id [] l = refl
find-remove_clients id (k ∷ ids) l = ground (
  arith,
  find-remove_clients id ids (without k l),
  find-without_same k id l,
  find-without_other k id l,
)
