-- ===== src/Ui/ChatBox/Submission.antt =====
-- What the chat box of examples/hello-spanreed/client/src/ChatBox.tsx submits.
use spanreed_netcode_proxy.Prelude.{
  false, ◌⊎◌, inl, inr, ◌≡◌, refl, ◌≢◌, String, List, [], ◌∷◌, arith, All, All-append, Bool-cases,
}
use text.Mathlib.Text.{◌==◌}
use text.Mathlib.TextEquality.{eq_iff}
use spanreed_netcode_proxy.Ui.Button.{mouse_enter, mouse_leave, click}
use spanreed_netcode_proxy.Ui.ChatBox.{
  ChatBox, Event, changed, key_down, button_event, new_chat_box, submit, handle, run,
}

-- The events without the Enter key.
abbrev pub ByMouse : List Event → Type 0
ByMouse [] = Unit {0}
ByMouse (key_down key ∷ es) = (key ≢ "Enter") × ByMouse es
ByMouse (_ ∷ es) = ByMouse es

-- The text stood in the input after one of the events.
abbrev pub WasTyped : String → List Event → Type 0
WasTyped s [] = ⊥
WasTyped s (changed value ∷ es) = (value ≡ s) ⊎ WasTyped s es
WasTyped s (_ ∷ es) = WasTyped s es

module _ (Q : String → Type 0) where
  abbrev IsGood : String → Type 0
  IsGood s = (s ≢ "") × Q s

  abbrev HasGood : ChatBox → Type 0
  HasGood c = (c.chat_msg ≢ "" → Q c.chat_msg) × All IsGood c.submitted

  click-HasGood : (c : ChatBox) → HasGood c → HasGood (handle (button_event click) c)
  unfolding handle submit
  click-HasGood c (typed, all) = elim (Bool-cases (c.chat_msg == "")) [
    | inl empty ↦ rw empty (typed, all)
    | inr full ↦
        let some_ : c.chat_msg ≢ "" = ground (arith, eq_iff c.chat_msg "", full) in
        rw full (
          λ h. absurd (h refl),
          All-append IsGood c.submitted (c.chat_msg ∷ []) all ((some_, typed some_), tt),
        )
  ]

  run-HasGood :
      (es : List Event) (c : ChatBox)
      → ByMouse es
      → ((s : String) → WasTyped s es → Q s)
      → HasGood c
      → HasGood (run es c)
  unfolding run handle
  run-HasGood [] c m q h = h
  run-HasGood (changed value ∷ es) c m q h =
      run-HasGood es (handle (changed value) c) m (λ s t. q s (inr t))
        (λ h'. q value (inl refl), h.1)
  run-HasGood (key_down key ∷ es) c (other, m) q h =
      let same : (key == "Enter") ≡ false = ground (arith, eq_iff key "Enter", other) in
      run-HasGood es (handle (key_down key) c) m q (rw same h)
  run-HasGood (button_event click ∷ es) c m q h =
      run-HasGood es (handle (button_event click) c) m q (click-HasGood c h)
  run-HasGood (button_event mouse_enter ∷ es) c m q h =
      run-HasGood es (handle (button_event mouse_enter) c) m q h
  run-HasGood (button_event mouse_leave ∷ es) c m q h =
      run-HasGood es (handle (button_event mouse_leave) c) m q h

-- As long as the Enter key is not pressed, whatever is typed and clicked, in whatever order: each
-- text that a new chat box has submitted is not empty, and stood in its input.
pub run-All-ByMouse :
    (es : List Event)
    → ByMouse es
    → All (λ s. (s ≢ "") × WasTyped s es) (run es new_chat_box).submitted
run-All-ByMouse es m =
    (run-HasGood (λ s. WasTyped s es) es new_chat_box m (λ s h. h) (λ h. absurd (h refl), tt)).1
