-- ===== src/Page/Messages/Dots.antt =====
-- The dots of a game state message (examples/hello-spanreed/client/src/DemoPage.tsx).
use spanreed_netcode_proxy.Prelude.{
  Option, none, ltb, if◌then◌else◌, ℕ, zero, suc, ◌+◌, ◌*◌, ◌≡◌, refl, sym, ap, ◌∙◌, true, false,
  some, List, [], ◌∷◌, ◌++◌, arith, length, append-nil, append_assoc, get_elem?, ◌==◌, Bool-cases,
  inl, inr,
}
use native.Mathlib.Nat.{zero-add, add-zero}
use spanreed_netcode_proxy.Canvas.Numbers.{Numbers}
use spanreed_netcode_proxy.Canvas.Instances.{Instance}
use spanreed_netcode_proxy.Wire.Flatbuffers.{Flatbuffers, Bytes, Table}
use spanreed_netcode_proxy.Wire.ServerMessage.{
  get_root_as_server_message, message_type, message, server_game_state_message,
}
use spanreed_netcode_proxy.Wire.ServerGameStateMessage.{dots, dots_length}
use spanreed_netcode_proxy.Page.{Page}
use spanreed_netcode_proxy.Page.Messages.{read_dot, collect_dots, process_message}

module _ (js : Numbers) (fb : Flatbuffers js.Number) where
  -- The struct at index `k` of the vector of dots.
  abbrev pub dot_at : Table fb → ℕ → Table fb
  dot_at t k = record {
    bb = t.bb;
    bb_pos = fb.vector t.bb (t.bb_pos + fb.vtable_offset t.bb t.bb_pos 4) + k * 16;
  }

  -- The dots from index `i` on.
  abbrev pub dots_from : Table fb → (left i : ℕ) → List (Instance js)
  dots_from t zero i = []
  dots_from t (suc left) i = read_dot js fb (dot_at t i) ∷ dots_from t left (i + 1)

  length-dots_from : (t : Table fb) (left i : ℕ) → length (dots_from t left i) ≡ left
  length-dots_from t zero i = refl
  length-dots_from t (suc left) i = ap suc (length-dots_from t left (i + 1))

  -- What the vector has at an index, if it has `n` dots.
  abbrev pub dot_below : Table fb → (n k : ℕ) → Option (Instance js)
  dot_below t n k = if ltb k n then some (read_dot js fb (dot_at t k)) else none

  get_elem?-dots_from :
      (t : Table fb) (left i k : ℕ)
      → get_elem? (dots_from t left i) k ≡ dot_below t (i + left) (i + k)
  get_elem?-dots_from t zero i k =
      let beyond : ltb (i + k) (i + 0) ≡ false = ground arith in rw beyond refl
  get_elem?-dots_from t (suc left) i zero =
      let within : ltb (i + 0) (i + suc left) ≡ true = ground arith in rw (within, add-zero) refl
  get_elem?-dots_from t (suc left) i (suc k) =
      let next : i + 1 + k ≡ i + suc k = omega arith in
      let rest : i + 1 + left ≡ i + suc left = omega arith in
      rw (next, rest) at (get_elem?-dots_from t left (i + 1) k)

  dots_present :
      (t : Table fb) (i : ℕ)
      → (fb.vtable_offset t.bb t.bb_pos 4 == 0) ≡ false
      → dots fb t i ≡ some (dot_at t i)
  unfolding dots
  dots_present t i h = rw h

  dots_length_absent :
      (t : Table fb) → (fb.vtable_offset t.bb t.bb_pos 4 == 0) ≡ true → dots_length fb t ≡ 0
  unfolding dots_length
  dots_length_absent t h = rw h

  collect_dots-eq :
      (t : Table fb) (left i : ℕ) (acc : List (Instance js))
      → (fb.vtable_offset t.bb t.bb_pos 4 == 0) ≡ false
      → collect_dots js fb t left i acc ≡ acc ++ dots_from t left i
  unfolding collect_dots
  collect_dots-eq t zero i acc h = sym (append-nil acc)
  collect_dots-eq t (suc left) i acc h = rw (dots_present t i h) (
      collect_dots-eq t left (i + 1) (acc ++ read_dot js fb (dot_at t i) ∷ []) h
      ∙ append_assoc acc _ _)

  -- The loop gives every dot of the vector, in order.
  collect_dots_all :
      (t : Table fb)
      → collect_dots js fb t (dots_length fb t) 0 [] ≡ dots_from t (dots_length fb t) 0
  unfolding collect_dots
  collect_dots_all t = elim (Bool-cases (fb.vtable_offset t.bb t.bb_pos 4 == 0)) [
    | inl absent ↦ rw (dots_length_absent t absent)
    | inr present ↦ collect_dots-eq t (dots_length fb t) 0 [] present
  ]

  -- A list of dots is the vector of `t`: as long, and with the dot of each index, and no other.
  pub record IsVector (t : Table fb) (l : List (Instance js)) : Type 0 where
    pub as_long : length l ≡ dots_length fb t
    pub in_order : (k : ℕ) → get_elem? l k ≡ dot_below t (dots_length fb t) k

  -- A game state message sets the page's dots to the dots of the message, all and in order, and
  -- changes nothing else.
  pub process_message-game_state :
      (bytes : Bytes) (page : Page js) (t : Table fb)
      → let root = get_root_as_server_message fb (fb.new_byte_buffer bytes) in
        message_type fb root ≡ server_game_state_message
        → message fb root ≡ some t
        → (l : List (Instance js)) × (process_message js fb bytes page
            ≡ some (record page { dots = some l }))
          × IsVector t l
  unfolding process_message
  process_message-game_state bytes page t is_state has_table = (
    dots_from t (dots_length fb t) 0,
    rw (is_state, has_table, collect_dots_all t),
    record {
      as_long = length-dots_from t (dots_length fb t) 0;
      in_order = λ k.
          rw (zero-add k, zero-add (dots_length fb t)) at
            (get_elem?-dots_from t (dots_length fb t) 0 k);
    },
  )
