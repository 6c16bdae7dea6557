-- ===== src/Canvas/Instances/Loop.antt =====
-- The whole loop of `setInstances` (examples/hello-spanreed/client/src/DemoRenderer.ts).
use spanreed_netcode_proxy.Prelude.{
  ℕ, suc, ◌+◌, ◌-◌, ◌*◌, ◌%◌, ◌≤◌, ◌<◌, ◌≡◌, refl, ◌∙◌, true, false, List, [], ◌∷◌, arith, length,
  take,
}
use native.Mathlib.Decide.{dec_lt}
use spanreed_netcode_proxy.Canvas.Numbers.{Numbers}
use spanreed_netcode_proxy.Canvas.ArrayBuffer.{ArrayBuffer}
use spanreed_netcode_proxy.Canvas.ArrayBuffer.Views.{
  f32_view_ok_of_le, u8_view_ok-false, set_f32_beyond,
}
use spanreed_netcode_proxy.Canvas.Instances.{Instance, write_instance, write_instances}
use spanreed_netcode_proxy.Canvas.Instances.Layout.{Holds, Holds-congr, Wrote, write_instance-Wrote}

-- A slot is left.
room_left : (i k : ℕ) → i < k → k - i ≡ suc (k - (i + 1))
room_left i k h = omega arith

module _ (js : Numbers) where
  -- The instances `l`, in the slots from `i` on.
  abbrev pub AllHeld : ArrayBuffer → ℕ → List (Instance js) → Type 0
  AllHeld b i [] = Unit {0}
  AllHeld b i (s ∷ l) = Holds js b i s × AllHeld b (i + 1) l

  pub record WroteAll (i : ℕ) (l : List (Instance js)) (b c : ArrayBuffer) : Type 0 where
    pub same_length : c.byte_length ≡ b.byte_length
    pub all_held : AllHeld c i l
    pub kept : (q : ℕ) → q < 16 * i → c.byte q ≡ b.byte q

  WroteAll-cons :
      (i : ℕ) (s : Instance js) (l : List (Instance js)) (b c d : ArrayBuffer)
      → Wrote js i s b c
      → WroteAll (i + 1) l c d
      → WroteAll i (s ∷ l) b d
  WroteAll-cons i s l b c d w w' = record {
    same_length = w'.same_length ∙ w.same_length;
    all_held = (Holds-congr js c d i s (λ q h. w'.kept q (omega arith)) w.holds, w'.all_held);
    kept = λ q h. w'.kept q (omega arith) ∙ w.kept q h;
  }

  -- The loop writes every instance into its slot if the buffer has all of them.
  pub write_instances_ok :
      (i : ℕ) (l : List (Instance js)) (b : ArrayBuffer)
      → 16 * (i + length l) ≤ b.byte_length
      → b.byte_length % 4 ≡ 0
      → (c : ArrayBuffer) × (write_instances js i l b ≡ (c, false)) × WroteAll i l b c
  unfolding write_instances
  write_instances_ok i [] b h m =
      (b, refl, record { same_length = refl; all_held = tt; kept = λ q _. refl })
  write_instances_ok i (s ∷ l) b h m =
      let (c, e, w) = write_instance-Wrote js i s b (omega arith) m in
      let (d, e', w') =
        write_instances_ok (i + 1) l c (omega (arith, w.same_length))
          (omega (arith, w.same_length, m)) in
      (d, rw (e, e'), WroteAll-cons i s l b c d w w')

  -- The slot just behind the end of a buffer of `k` slots: the float view there is empty, and the
  -- view of the colour's bytes cannot be made.
  write_instance_beyond :
      (k : ℕ) (s : Instance js) (b : ArrayBuffer)
      → b.byte_length ≡ 16 * k
      → write_instance js k s b ≡ (b, true)
  unfolding write_instance
  write_instance_beyond k s b e = rw (
    f32_view_ok_of_le b (16 * k) (omega arith) (omega arith) (omega arith),
    set_f32_beyond (16 * k) 0 _ b (omega arith),
    set_f32_beyond (16 * k) 1 _ b (omega arith),
    set_f32_beyond (16 * k) 2 _ b (omega arith),
    u8_view_ok-false b (16 * k + 12) (omega arith),
  )

  -- With more instances than slots the loop throws, having filled every slot.
  pub write_instances_throws :
      (k i : ℕ) (l : List (Instance js)) (b : ArrayBuffer)
      → b.byte_length ≡ 16 * k
      → i ≤ k
      → k < i + length l
      → (c : ArrayBuffer) × (write_instances js i l b ≡ (c, true)) × WroteAll i (take (k - i) l) b c
  unfolding write_instances
  write_instances_throws k i [] b e h o = absurd (omega arith)
  write_instances_throws k i (s ∷ l) b e h o = elim (dec_lt i k) [
    | yes room ↦
        (let (c, e1, w) = write_instance-Wrote js i s b (omega arith) (omega arith) in
          let (d, e2, w') =
            write_instances_throws k (i + 1) l c (w.same_length ∙ e) (omega arith) (omega arith) in
          (
            d,
            rw (e1, e2),
            rw (room_left i k room) (WroteAll-cons i s (take (k - (i + 1)) l) b c d w w'),
          ))
    | no full ↦
        (let at_end : i ≡ k = omega arith in
          let nothing : k - i ≡ 0 = omega arith in
          (
            b,
            rw (write_instance_beyond i s b (omega arith)),
            rw nothing (record { same_length = refl; all_held = tt; kept = λ q _. refl }),
          ))
  ]
