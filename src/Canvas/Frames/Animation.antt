-- ===== src/Canvas/Frames/Animation.antt =====
-- The pending frames of the animation of examples/hello-spanreed/client/src/DemoRenderer.ts.
use spanreed_netcode_proxy.Prelude.{
  ℕ, ◌≡◌, refl, ap, ◌==◌, inl, inr, Bool-cases, Option, some, List, [], ◌∷◌, arith,
}
use spanreed_netcode_proxy.Canvas.Numbers.{Numbers}
use spanreed_netcode_proxy.Canvas.Instances.{Instance}
use spanreed_netcode_proxy.Canvas.Renderer.{set_instances}
use spanreed_netcode_proxy.Canvas.Frames.{
  Loop, start, frame, destroy, update, Event, framed, updated, handle, run,
}

-- Exactly one frame is pending, the one that was requested last.
abbrev pub IsAnimating : Loop → Type 0
IsAnimating l = (h : ℕ) × (l.renderer.raf ≡ some h) × (l.pending ≡ h ∷ [])

start-IsAnimating : (h : ℕ) (l : Loop) → l.pending ≡ [] → IsAnimating (start h l)
unfolding start
start-IsAnimating h l e = (h, refl, ap (λ p. h ∷ p) e)

frame-IsAnimating :
    (h next : ℕ) (measured : Option (ℕ × ℕ)) (l : Loop)
    → IsAnimating l
    → IsAnimating (frame h next measured l)
unfolding frame
frame-IsAnimating h next measured l (k, r, p) = elim (Bool-cases (k == h)) [
  | inl now ↦ (next, rw p (rw now refl), rw p (rw now))
  | inr other ↦ (k, rw p (rw other r), rw p (rw other))
]

destroy_pending : (l : Loop) → IsAnimating l → (destroy l).pending ≡ []
unfolding destroy
destroy_pending l (k, r, p) = ground arith

frame_idle :
    (h next : ℕ) (measured : Option (ℕ × ℕ)) (l : Loop)
    → l.pending ≡ []
    → frame h next measured l ≡ l
unfolding frame
frame_idle h next measured l e = ground arith

module _ (js : Numbers) where
  update-IsAnimating :
      (dots : List (Instance js)) (l : Loop) → IsAnimating l → IsAnimating (update js dots l)
  unfolding update set_instances
  update-IsAnimating dots l (k, r, p) = (k, ground arith, p)

  run-IsAnimating : (es : List (Event js)) (l : Loop) → IsAnimating l → IsAnimating (run js es l)
  unfolding run handle
  run-IsAnimating [] l h = h
  run-IsAnimating (framed k next measured ∷ es) l h =
      run-IsAnimating es _ (frame-IsAnimating k next measured l h)
  run-IsAnimating (updated dots ∷ es) l h = run-IsAnimating es _ (update-IsAnimating dots l h)

  -- If nothing is pending: after `start` and any frames and updates, exactly one frame is pending,
  -- the one that `raf` names, so the animation goes on and never runs twice.
  pub run-start-IsAnimating :
      (first : ℕ) (es : List (Event js)) (l : Loop)
      → l.pending ≡ []
      → IsAnimating (run js es (start first l))
  run-start-IsAnimating first es l e =
      run-IsAnimating es (start first l) (start-IsAnimating first l e)

  -- If nothing is pending: after `start`, any frames and updates, and `destroy`, no frame is
  -- pending: whatever frame the browser might still want to run, nothing is painted and nothing is
  -- requested.
  pub destroy_stops :
      (first : ℕ) (es : List (Event js)) (l : Loop) (h next : ℕ) (measured : Option (ℕ × ℕ))
      → l.pending ≡ []
      → let stopped = destroy (run js es (start first l)) in
        (stopped.pending ≡ []) × (frame h next measured stopped ≡ stopped)
  destroy_stops first es l h next measured e =
      let at_end =
        destroy_pending (run js es (start first l)) (run-start-IsAnimating first es l e) in
      (at_end, frame_idle h next measured (destroy (run js es (start first l))) at_end)
