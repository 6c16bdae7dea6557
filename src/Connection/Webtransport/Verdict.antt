-- ===== src/Connection/Webtransport/Verdict.antt =====
-- About `connectWebtransport` of examples/hello-spanreed/client/src/Connection.ts.
use spanreed_netcode_proxy.Prelude.{ℕ, ◌≡◌, refl, ◌⊎◌, inl, inr, String, List, [], ◌∷◌, arith}
use mathlib.Core.List.{Memᴰ}
use spanreed_netcode_proxy.Log.{LogCb}
use spanreed_netcode_proxy.Wire.Flatbuffers.{Flatbuffers, Bytes}
use spanreed_netcode_proxy.Connection.Payload.{connect_client_payload}
use spanreed_netcode_proxy.Connection.Websocket.Outcome.{IsAccepting}
use spanreed_netcode_proxy.Connection.Webtransport.{
  Event, read_bytes, read_other, Phase, opening, authorizing, connected, failed, Attempt, step, run,
  open_webtransport, connect_webtransport,
}

module _ {N : Type 0} (fb : Flatbuffers N) (show : ℕ → String) (log_cb : LogCb) where
  -- Nothing is written before the race is decided, and then the one request.
  abbrev pub Wrote : Bytes → Phase → List Bytes → Type 0
  Wrote payload opening written = written ≡ []
  Wrote payload authorizing written = written ≡ payload ∷ []
  Wrote payload connected written = written ≡ payload ∷ []
  Wrote payload (failed f) written = (written ≡ []) ⊎ (written ≡ payload ∷ [])

  -- Why a connection may have been made: an accepting verdict, or a first value that is no bytes.
  abbrev pub HasAcceptance : List Event → Type 0
  HasAcceptance es =
      ((bytes : Bytes) × Memᴰ (read_bytes bytes) es × IsAccepting fb bytes) ⊎ Memᴰ read_other es

  module _ (backend user : String) where
    abbrev payload : Bytes
    payload = connect_client_payload fb backend user

    step-Wrote :
        (e : Event) (a : Attempt)
        → Wrote payload a.phase a.written
        → let b = step fb show log_cb backend user e a in Wrote payload b.phase b.written
    unfolding step
    step-Wrote e a h = ground arith

    run-Wrote :
        (es : List Event) (a : Attempt)
        → Wrote payload a.phase a.written
        → let b = run fb show log_cb backend user es a in Wrote payload b.phase b.written
    unfolding run
    run-Wrote [] a h = h
    run-Wrote (e ∷ es) a h = run-Wrote es _ (step-Wrote e a h)

    -- Whatever the transport reports: nothing is written before it is ready or closed, and after
    -- that exactly the one connection request.
    pub connect_webtransport-Wrote :
        (es : List Event)
        → let a = connect_webtransport fb show log_cb backend user es in
          Wrote (connect_client_payload fb backend user) a.phase a.written
    unfolding connect_webtransport
    connect_webtransport-Wrote es = run-Wrote es _ refl

    -- Which event a connection comes from.
    abbrev Connects : Event → Phase → Type 0
    Connects (read_bytes bytes) p = (p ≡ connected) ⊎ IsAccepting fb bytes
    Connects read_other p = Unit {0}
    Connects _ p = p ≡ connected

    step-Connects :
        (e : Event) (a : Attempt)
        → (step fb show log_cb backend user e a).phase ≡ connected
        → Connects e a.phase
    unfolding step
    step-Connects (read_bytes bytes) a h = ground arith
    step-Connects read_other a h = tt
    step-Connects _ a h = ground arith

    later : (e : Event) {es : List Event} → HasAcceptance es → HasAcceptance (e ∷ es)
    later e (inl (bytes, m, h)) = inl (bytes, Memᴰ.tail m, h)
    later e (inr m) = inr (Memᴰ.tail m)

    first :
        (e : Event) (es : List Event) (p : Phase)
        → Connects e p
        → (p ≡ connected) ⊎ HasAcceptance (e ∷ es)
    first (read_bytes bytes) es p (inl h) = inl h
    first (read_bytes bytes) es p (inr h) = inr (inl (bytes, Memᴰ.head refl, h))
    first read_other es p h = inr (inr (Memᴰ.head refl))
    first Event.ready es p h = inl h
    first Event.closed es p h = inl h
    first (Event.closed_with e) es p h = inl h
    first Event.read_done es p h = inl h
    first Event.read_failed es p h = inl h

    run_connects :
        (es : List Event) (a : Attempt)
        → (run fb show log_cb backend user es a).phase ≡ connected
        → (a.phase ≡ connected) ⊎ HasAcceptance es
    unfolding run
    run_connects [] a h = inl h
    run_connects (e ∷ es) a h = elim (run_connects es (step fb show log_cb backend user e a) h) [
      | inl now ↦ first e es a.phase (step-Connects e a now)
      | inr m ↦ inr (later e m)
    ]

    -- A connection is made only if a read gave an accepting verdict, or a value that is no bytes,
    -- for which there is no test.
    pub connect_webtransport_accepted :
        (es : List Event)
        → (connect_webtransport fb show log_cb backend user es).phase ≡ connected
        → HasAcceptance es
    unfolding connect_webtransport
    connect_webtransport_accepted es h =
        elim (run_connects es (open_webtransport fb show log_cb) h) [ inl e ↦ cc | inr m ↦ m ]
