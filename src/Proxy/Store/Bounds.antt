-- ===== src/Proxy/Store/Bounds.antt =====
-- The clients of internal/client_store.go have different ids, and are at most as many as allowed.
use spanreed_netcode_proxy.Prelude.{
  ℕ, ◌≤◌, ◌≡◌, refl, false, String, Option, none, some, [], ◌∷◌, ◌==◌, length, is_some, leb, arith,
  Bool-cases, inl, inr,
}
use spanreed_netcode_proxy.Proxy.Store.{
  ClientStore, ClientConnectionMetadata, Connections, find, without, change, create_client,
  remove_client, set_client,
}

-- No id stands twice.
abbrev pub AreDistinct : Connections → Type 0
AreDistinct [] = Unit {0}
AreDistinct ((k, m) ∷ rest) = (find k rest ≡ none) × AreDistinct rest

pub record IsWellFormed (limit : ℕ) (store : ClientStore) : Type 0 where
  pub distinct : AreDistinct store.client_connections
  pub limited : store.max_connections ≡ limit
  pub bounded : length store.client_connections ≤ limit

pub find-without_other :
    (id k : ℕ) (l : Connections) → (id == k) ≡ false → find k (without id l) ≡ find k l
find-without_other id k [] h = refl
find-without_other id k ((j, m) ∷ rest) h = ground (arith, find-without_other id k rest h)

pub find-without : (id : ℕ) (l : Connections) → find id (without id l) ≡ none
find-without id [] = refl
find-without id ((j, m) ∷ rest) = ground (arith, find-without id rest)

length-without : (id : ℕ) (l : Connections) → length (without id l) ≤ length l
length-without id [] = omega arith
length-without id ((j, m) ∷ rest) = ground (arith, length-without id rest)

find-without_absent : (id k : ℕ) (l : Connections) → find k l ≡ none → find k (without id l) ≡ none
find-without_absent id k [] h = refl
find-without_absent id k ((j, m) ∷ rest) h = ground (arith, find-without_absent id k rest)

without-AreDistinct : (id : ℕ) (l : Connections) → AreDistinct l → AreDistinct (without id l)
without-AreDistinct id [] h = tt
without-AreDistinct id ((k, m) ∷ rest) (new, h) = elim (Bool-cases (k == id)) [
  | inl same ↦ rw same (without-AreDistinct id rest h)
  | inr other ↦ rw other (find-without_absent id k rest new, without-AreDistinct id rest h)
]

module _ (id : ℕ) (f : ClientConnectionMetadata → ClientConnectionMetadata) where
  pub find-change_other :
      (k : ℕ) (l : Connections) → (id == k) ≡ false → find k (change id f l) ≡ find k l
  find-change_other k [] h = refl
  find-change_other k ((j, m) ∷ rest) h = ground (arith, find-change_other k rest h)

  pub find-change :
      (l : Connections) (m : ClientConnectionMetadata)
      → find id l ≡ some m
      → find id (change id f l) ≡ some (f m)
  find-change [] m h = cc
  find-change ((j, n) ∷ rest) m h = ground (arith, find-change rest m, h)

  length-change : (l : Connections) → length (change id f l) ≡ length l
  length-change [] = refl
  length-change ((j, m) ∷ rest) = ground (arith, length-change rest)

  find-change_absent : (k : ℕ) (l : Connections) → find k l ≡ none → find k (change id f l) ≡ none
  find-change_absent k [] h = refl
  find-change_absent k ((j, m) ∷ rest) h = ground (arith, find-change_absent k rest)

  change-AreDistinct : (l : Connections) → AreDistinct l → AreDistinct (change id f l)
  change-AreDistinct [] h = tt
  change-AreDistinct ((k, m) ∷ rest) (new, h) = elim (Bool-cases (k == id)) [
    | inl same ↦ rw same (new, h)
    | inr other ↦ rw other (find-change_absent k rest new, change-AreDistinct rest h)
  ]

none_of : (m : Option ClientConnectionMetadata) → is_some m ≡ false → m ≡ none
none_of none h = refl
none_of (some m) h = cc

-- A client is only added with a new id, and while there is room.
pub create_client-IsWellFormed :
    {limit : ℕ} (id : ℕ) (name : String) (t : ℕ) (store : ClientStore)
    → IsWellFormed limit store
    → IsWellFormed limit (create_client id name t store).1
create_client-IsWellFormed {limit} id name t store h =
    elim (Bool-cases (is_some (find id store.client_connections))) [
      | inl known ↦ rw known h
      | inr new ↦ elim (Bool-cases (leb store.max_connections (length store.client_connections))) [
        | inl full ↦ rw (new, full) h
        | inr room ↦
            rw (new, room)
              (record {
                distinct = (none_of _ new, h.distinct);
                limited = h.limited;
                bounded = ground (arith, room, h.limited);
              })
      ]
    ]

pub remove_client-IsWellFormed :
    {limit : ℕ} (id : ℕ) (store : ClientStore)
    → IsWellFormed limit store
    → IsWellFormed limit (remove_client id store)
remove_client-IsWellFormed id store h = record {
  distinct = without-AreDistinct id store.client_connections h.distinct;
  limited = h.limited;
  bounded = omega (arith, length-without id store.client_connections, h.bounded);
}

pub set_client-IsWellFormed :
    {limit : ℕ} (id : ℕ) (f : ClientConnectionMetadata → ClientConnectionMetadata)
    (store : ClientStore)
    → IsWellFormed limit store
    → IsWellFormed limit (set_client id f store).1
set_client-IsWellFormed id f store h =
    elim (Bool-cases (is_some (find id store.client_connections))) [
      | inl known ↦ rw known (record {
        distinct = change-AreDistinct id f store.client_connections h.distinct;
        limited = h.limited;
        bounded = omega (arith, length-change id f store.client_connections, h.bounded);
      })
      | inr missing ↦ rw missing h
    ]

-- The setters change a client that is known.
pub set_client_known :
    (id : ℕ) (f : ClientConnectionMetadata → ClientConnectionMetadata) (store : ClientStore)
    (m : ClientConnectionMetadata)
    → find id store.client_connections ≡ some m
    → set_client id f store
      ≡ (none, record store { client_connections = change id f store.client_connections })
set_client_known id f store m h = rw h refl
