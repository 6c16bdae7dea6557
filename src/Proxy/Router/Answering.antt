-- ===== src/Proxy/Router/Answering.antt =====
-- The verdict that pkg/transport/client_connection_router.go builds for a client.
use spanreed_netcode_proxy.Prelude.{
  ℕ, ◌<◌, ◌≡◌, refl, Bool, String, Option, none, some, [], ◌∷◌, ◌++◌, true, false, get_or_else,
  if◌then◌else◌, arith,
}
use spanreed_netcode_proxy.Wire.Flatbuffers.{Flatbuffers, Bytes, get_root}
use spanreed_netcode_proxy.Wire.Flatbuffers.Objects.{Fields}
use spanreed_netcode_proxy.Wire.Flatbuffers.Laws.{Laws}
use spanreed_netcode_proxy.Wire.Flatbuffers.Reading.{StandsOn}
use spanreed_netcode_proxy.Wire.Flatbuffers.Writing.{Builds, starts, ends, adds_offset}
use spanreed_netcode_proxy.Wire.Flatbuffers.Optional.{
  rows, offset_of, text_of, bytes_of, entry, Placed, Placed-kept, adds_flag,
}
use spanreed_netcode_proxy.Wire.Flatbuffers.Placing.{place, AreBytes, place-text, place-vector}
use spanreed_netcode_proxy.Wire.ConnectClientVerdict.{
  get_root_as_connect_client_verdict, accepted, error_reason, app_data_array,
}
use spanreed_netcode_proxy.Wire.ConnectClientVerdict.RoundTrip.{verdict_rows, read_verdict-StandsOn}
use spanreed_netcode_proxy.Proxy.State.{Verdict}
use spanreed_netcode_proxy.Proxy.Router.{
  Route, settled, routing, ended, awaiting_verdict, verdict_received, verdict_passed, on_verdict,
  react, receive, sends, nonempty, create_verdict_msg, add_if,
}

settled_lem :
    (ok : Bool) (r : Route)
    → ((settled ok r).phase ≡ (if ok then routing true true else ended))
      × ((settled ok r).outgoing_packets ≡ r.outgoing_packets)
unfolding settled
settled_lem true r = (refl, refl)
settled_lem false r = (refl, refl)

-- A route that waits for a verdict passes it on, and goes on or ends as the verdict says.
pub receive-verdict_received :
    {N : Type 0} (fb : Flatbuffers N) (v : Verdict) (r : Route)
    → r.phase ≡ awaiting_verdict
    → let p = create_verdict_msg fb v.verdict (get_or_else v.error "") v.app_data in
      (q : Route) × (receive fb (verdict_received v) r ≡ some q)
      × (q.phase ≡ (if v.verdict then routing true true else ended))
      × (q.outgoing_packets ≡ r.outgoing_packets ++ p ∷ [])
unfolding receive react on_verdict verdict_passed
receive-verdict_received fb v r waiting =
    let p = create_verdict_msg fb v.verdict (get_or_else v.error "") v.app_data in
    let (at_, sent_) = settled_lem v.verdict (sends p r) in
    (settled v.verdict (sends p r), rw waiting refl, at_, sent_)

module _ {N : Type 0} (fb : Flatbuffers N) (laws : Laws fb) where
  open fb use {Builder, new_builder}

  module _ {old b : Builder} {fs : Fields N} (slot p : ℕ) (lt : slot < 3) where
    adds_text_if :
        (s : Option String)
        → Placed fb laws old p (text_of s)
        → Builds fb laws old 3 b fs
        → Builds fb laws old 3 (add_if fb s slot p b).1 (entry slot (offset_of (text_of s)) fs)
    unfolding add_if
    adds_text_if none there h = h
    adds_text_if (some s) there h = adds_offset fb laws slot p _ lt there h

    adds_bytes_if :
        (l : Option Bytes)
        → Placed fb laws old p (bytes_of l)
        → Builds fb laws old 3 b fs
        → Builds fb laws old 3 (add_if fb l slot p b).1 (entry slot (offset_of (bytes_of l)) fs)
    unfolding add_if
    adds_bytes_if none there h = h
    adds_bytes_if (some l) there h = adds_offset fb laws slot p _ lt there h

  create_verdict_msg-StandsOn :
      (ok : Bool) (reason : String) (app_data : Option Bytes)
      → AreBytes app_data
      → StandsOn fb laws
          (get_root_as_connect_client_verdict fb
            (fb.new_byte_buffer (create_verdict_msg fb ok reason app_data)))
          (rows (verdict_rows fb ok (text_of (nonempty reason)) (bytes_of app_data)))
  unfolding create_verdict_msg get_root_as_connect_client_verdict get_root
  create_verdict_msg-StandsOn ok reason app_data h =
      let i = laws.new_builder-Idle 64 in
      let k = place-vector fb laws app_data (new_builder 64) i h in
      let (p, b) = place fb.create_byte_vector app_data (new_builder 64) in
      let m = place-text fb laws (nonempty reason) b k.idle in
      let (q, c) = place fb.create_string (nonempty reason) b in
      let there = Placed-kept fb laws p (bytes_of app_data) m.kept k.placed in
      let r = ends fb laws (
        adds_bytes_if 2 p (omega arith) app_data there (
          adds_text_if 1 q (omega arith) (nonempty reason) m.placed
            (adds_flag fb laws 0 ok (omega arith) (starts fb laws 3 m.idle)))) in
      laws.finish-At _ _ _ r.idle r.made

  -- A client reads the verdict as it was given; an empty reason is none.
  pub read-create_verdict_msg :
      (ok : Bool) (reason : String) (app_data : Option Bytes)
      → AreBytes app_data
      → let t =
          get_root_as_connect_client_verdict fb
            (fb.new_byte_buffer (create_verdict_msg fb ok reason app_data)) in
        (accepted fb t ≡ ok)
        × (error_reason fb t ≡ nonempty reason)
        × (app_data_array fb t ≡ app_data)
  read-create_verdict_msg ok reason app_data h =
      read_verdict-StandsOn fb laws ok (nonempty reason) app_data
        (create_verdict_msg fb ok reason app_data)
        (create_verdict_msg-StandsOn ok reason app_data h)
