-- ===== src/Canvas/Instances/Layout.antt =====
-- One round of the loop of `setInstances` (examples/hello-spanreed/client/src/DemoRenderer.ts).
use spanreed_netcode_proxy.Prelude.{ℕ, ◌+◌, ◌*◌, ◌%◌, ◌≤◌, ◌<◌, ◌≡◌, ◌∙◌, ◌⊎◌, inl, false, arith}
use spanreed_netcode_proxy.Canvas.Numbers.{Numbers, F32}
use spanreed_netcode_proxy.Canvas.ArrayBuffer.{ArrayBuffer, set_f32, set_u8, f32_at}
use spanreed_netcode_proxy.Canvas.ArrayBuffer.Views.{
  f32_view_ok_of_le, u8_view_ok_of_le, byte_length-set_f32, byte_length-set_u8, f32_at-set_f32_self,
  byte-set_f32_ne, byte-set_u8_self, byte-set_u8_ne,
}
use spanreed_netcode_proxy.Canvas.Instances.{Instance, Color8, write_instance}

-- The three bytes of colour, written at position `p`.
colored : ℕ → Color8 → ArrayBuffer → ArrayBuffer
colored p c b = set_u8 p 2 c.blue (set_u8 p 1 c.green (set_u8 p 0 c.red b))

byte_length-colored :
    (p : ℕ) (c : Color8) (b : ArrayBuffer) → (colored p c b).byte_length ≡ b.byte_length
unfolding colored
byte_length-colored p c b = grind (arith, byte_length-set_u8)

byte-colored_ne :
    (p : ℕ) (c : Color8) (b : ArrayBuffer) (q : ℕ)
    → (q < p) ⊎ (p + 3 ≤ q)
    → (colored p c b).byte q ≡ b.byte q
unfolding colored
byte-colored_ne p c b q h =
    byte-set_u8_ne p 2 c.blue _ q (λ e. omega arith)
    ∙ byte-set_u8_ne p 1 c.green _ q (λ e. omega arith)
    ∙ byte-set_u8_ne p 0 c.red b q (λ e. omega arith)

colored_bytes :
    (p : ℕ) (c : Color8) (b : ArrayBuffer)
    → p + 3 ≤ b.byte_length
    → ((colored p c b).byte (p + 0) ≡ c.red % 256)
      × ((colored p c b).byte (p + 1) ≡ c.green % 256)
      × ((colored p c b).byte (p + 2) ≡ c.blue % 256)
unfolding colored
colored_bytes p c b h = (
  byte-set_u8_ne p 2 c.blue _ (p + 0) (λ e. omega arith)
      ∙ byte-set_u8_ne p 1 c.green _ (p + 0) (λ e. omega arith)
      ∙ byte-set_u8_self p 0 c.red b (omega arith),
  byte-set_u8_ne p 2 c.blue _ (p + 1) (λ e. omega arith)
      ∙ byte-set_u8_self p 1 c.green _ (omega (arith, byte_length-set_u8 p 0 c.red b)),
  byte-set_u8_self p 2 c.blue _ (
      omega (
        arith,
        byte_length-set_u8 p 0 c.red b,
        byte_length-set_u8 p 1 c.green (set_u8 p 0 c.red b),
      )),
)

-- The three floats, written at position `p`.
floats : ℕ → F32 → F32 → F32 → ArrayBuffer → ArrayBuffer
floats p u v w b = set_f32 p 2 w (set_f32 p 1 v (set_f32 p 0 u b))

byte_length-floats :
    (p : ℕ) (u v w : F32) (b : ArrayBuffer) → (floats p u v w b).byte_length ≡ b.byte_length
unfolding floats
byte_length-floats p u v w b = grind (arith, byte_length-set_f32)

byte-floats_ne :
    (p : ℕ) (u v w : F32) (b : ArrayBuffer) (q : ℕ)
    → (q < p) ⊎ (p + 12 ≤ q)
    → (floats p u v w b).byte q ≡ b.byte q
unfolding floats
byte-floats_ne p u v w b q h =
    byte-set_f32_ne p 2 w _ q (omega arith)
    ∙ byte-set_f32_ne p 1 v _ q (omega arith)
    ∙ byte-set_f32_ne p 0 u b q (omega arith)

-- Two buffers that agree on four bytes hold the same float there.
f32_at_congr :
    (b c : ArrayBuffer) (p : ℕ)
    → ((q : ℕ) → p ≤ q → q < p + 4 → b.byte q ≡ c.byte q)
    → f32_at b p ≡ f32_at c p
f32_at_congr b c p h = ground (
  arith,
  h p (omega arith) (omega arith),
  h (p + 1) (omega arith) (omega arith),
  h (p + 2) (omega arith) (omega arith),
  h (p + 3) (omega arith) (omega arith),
)

-- A float in front of a later write is still there.
f32_at-set_f32_ne :
    (p k l : ℕ) (v : F32) (b : ArrayBuffer)
    → k < l
    → f32_at (set_f32 p l v b) (p + 4 * k) ≡ f32_at b (p + 4 * k)
f32_at-set_f32_ne p k l v b h =
    f32_at_congr (set_f32 p l v b) b (p + 4 * k)
      λ q lo hi. byte-set_f32_ne p l v b q (inl (omega arith))

floats_read :
    (p : ℕ) (u v w : F32) (b : ArrayBuffer)
    → p + 12 ≤ b.byte_length
    → (f32_at (floats p u v w b) (p + 4 * 0) ≡ u)
      × (f32_at (floats p u v w b) (p + 4 * 1) ≡ v)
      × (f32_at (floats p u v w b) (p + 4 * 2) ≡ w)
unfolding floats
floats_read p u v w b h =
    let b1 = set_f32 p 0 u b in
    let b2 = set_f32 p 1 v b1 in
    let e1 = byte_length-set_f32 p 0 u b in
    let e2 = byte_length-set_f32 p 1 v b1 in
    (
      f32_at-set_f32_ne p 0 2 w b2 (omega arith)
          ∙ f32_at-set_f32_ne p 0 1 v b1 (omega arith)
          ∙ f32_at-set_f32_self p 0 u b (omega arith),
      f32_at-set_f32_ne p 1 2 w b2 (omega arith) ∙ f32_at-set_f32_self p 1 v b1 (omega arith),
      f32_at-set_f32_self p 2 w b2 (omega arith),
    )

module _ (js : Numbers) where
  open js use {number, sub, fround}

  written : ℕ → Instance js → ArrayBuffer → ArrayBuffer
  unfolding colored floats
  written i s b =
      colored (16 * i + 12) s.color
        (floats (16 * i) (fround s.x) (fround (sub (number 400) s.y)) (fround s.radius) b)

  write_instance-eq-written :
      (i : ℕ) (s : Instance js) (b : ArrayBuffer)
      → 16 * i + 16 ≤ b.byte_length
      → b.byte_length % 4 ≡ 0
      → write_instance js i s b ≡ (written i s b, false)
  unfolding write_instance written
  write_instance-eq-written i s b h m =
      let x = fround s.x in
      let y = fround (sub (number 400) s.y) in
      let r = fround s.radius in
      rw (
        f32_view_ok_of_le b (16 * i) (omega arith) (omega arith) m,
        u8_view_ok_of_le (floats (16 * i) x y r b) (16 * i + 12)
            (omega (arith, byte_length-floats (16 * i) x y r b)),
      )

  -- The sixteen bytes of slot `i` hold the instance: three floats, and three bytes of colour.
  pub record Holds (b : ArrayBuffer) (i : ℕ) (s : Instance js) : Type 0 where
    pub x_held : f32_at b (16 * i + 4 * 0) ≡ fround s.x
    pub y_held : f32_at b (16 * i + 4 * 1) ≡ fround (sub (number 400) s.y)
    pub radius_held : f32_at b (16 * i + 4 * 2) ≡ fround s.radius
    pub red_held : b.byte (16 * i + 12 + 0) ≡ s.color.red % 256
    pub green_held : b.byte (16 * i + 12 + 1) ≡ s.color.green % 256
    pub blue_held : b.byte (16 * i + 12 + 2) ≡ s.color.blue % 256

  -- A slot depends on its sixteen bytes alone.
  pub Holds-congr :
      (b c : ArrayBuffer) (i : ℕ) (s : Instance js)
      → ((q : ℕ) → q < 16 * i + 16 → c.byte q ≡ b.byte q)
      → Holds b i s
      → Holds c i s
  Holds-congr b c i s same h = record {
    x_held = f32_at_congr c b (16 * i + 4 * 0) (λ q lo hi. same q (omega arith)) ∙ h.x_held;
    y_held = f32_at_congr c b (16 * i + 4 * 1) (λ q lo hi. same q (omega arith)) ∙ h.y_held;
    radius_held =
        f32_at_congr c b (16 * i + 4 * 2) (λ q lo hi. same q (omega arith)) ∙ h.radius_held;
    red_held = same (16 * i + 12 + 0) (omega arith) ∙ h.red_held;
    green_held = same (16 * i + 12 + 1) (omega arith) ∙ h.green_held;
    blue_held = same (16 * i + 12 + 2) (omega arith) ∙ h.blue_held;
  }

  written-Holds :
      (i : ℕ) (s : Instance js) (b : ArrayBuffer)
      → 16 * i + 16 ≤ b.byte_length
      → Holds (written i s b) i s
  unfolding written
  written-Holds i s b h =
      let p = 16 * i in
      let x = fround s.x in
      let y = fround (sub (number 400) s.y) in
      let r = fround s.radius in
      let f = floats p x y r b in
      let read = floats_read p x y r b (omega arith) in
      let dyes = colored_bytes (p + 12) s.color f (omega (arith, byte_length-floats p x y r b)) in
      let front = λ (q : ℕ) (hi : q < p + 12). byte-colored_ne (p + 12) s.color f q (inl hi) in
      let out = colored (p + 12) s.color f in
      record {
        x_held = f32_at_congr out f (p + 4 * 0) (λ q lo hi. front q (omega arith)) ∙ read.0;
        y_held = f32_at_congr out f (p + 4 * 1) (λ q lo hi. front q (omega arith)) ∙ read.1;
        radius_held = f32_at_congr out f (p + 4 * 2) (λ q lo hi. front q (omega arith)) ∙ read.2;
        red_held = dyes.0;
        green_held = dyes.1;
        blue_held = dyes.2;
      }

  -- What one round of the loop does to a buffer that has the slot.
  pub record Wrote (i : ℕ) (s : Instance js) (b c : ArrayBuffer) : Type 0 where
    pub same_length : c.byte_length ≡ b.byte_length
    pub holds : Holds c i s
    pub kept : (q : ℕ) → q < 16 * i → c.byte q ≡ b.byte q

  pub write_instance-Wrote :
      (i : ℕ) (s : Instance js) (b : ArrayBuffer)
      → 16 * i + 16 ≤ b.byte_length
      → b.byte_length % 4 ≡ 0
      → (c : ArrayBuffer) × (write_instance js i s b ≡ (c, false)) × Wrote i s b c
  unfolding written
  write_instance-Wrote i s b h m =
      let p = 16 * i in
      let x = fround s.x in
      let y = fround (sub (number 400) s.y) in
      let r = fround s.radius in
      let f = floats p x y r b in
      (
        written i s b,
        write_instance-eq-written i s b h m,
        record {
          same_length = byte_length-colored (p + 12) s.color f ∙ byte_length-floats p x y r b;
          holds = written-Holds i s b h;
          kept = λ q hi.
              byte-colored_ne (p + 12) s.color f q (inl (omega arith))
              ∙ byte-floats_ne p x y r b q (inl hi);
        },
      )
