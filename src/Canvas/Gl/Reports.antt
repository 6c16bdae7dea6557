-- ===== src/Canvas/Gl/Reports.antt =====
-- What an action has logged when it ends.
use spanreed_netcode_proxy.Prelude.{
  ℕ, Bool, true, false, Option, none, some, ◌≡◌, refl, ◌∙◌, String, List, [], ◌++◌, append-nil,
  append_assoc, if◌then◌else◌,
}
use spanreed_netcode_proxy.Log.{LogLevel, Output, LogCb}
use spanreed_netcode_proxy.Canvas.Gl.{
  GlCall, History, World, Action, ◌>>=◌, ◌>>◌, pure, call, ask, make, fail, or_fail, required,
  actions,
}

-- With a value, nothing was logged; with `null`, something may have been.
abbrev pub Grows : {A : Type 0} → World → Option A × World → Type 0
Grows w (none, w') = (more : List Output) × (w'.output ≡ w.output ++ more)
Grows w (some _, w') = w'.output ≡ w.output

-- With a value, nothing was logged; with `null`, the last thing that was logged is an error.
abbrev pub EndsInError : {A : Type 0} → LogCb → World → Option A × World → Type 0
EndsInError log w (none, w') =
    (more : List Output) × (msg : String) × (w'.output
      ≡ (w.output ++ more) ++ log msg (some LogLevel.error))
EndsInError log w (some _, w') = w'.output ≡ w.output

pub record Extends {A : Type 0} (m : Action A) : Type 0 where
  pub at : (w : World) → Grows w (m w)

pub record Reports {A : Type 0} (log : LogCb) (m : Action A) : Type 0 where
  pub at : (w : World) → EndsInError log w (m w)

Grows-of_EndsInError :
    {A : Type 0} (log : LogCb) (w : World) (r : Option A × World) → EndsInError log w r → Grows w r
Grows-of_EndsInError log w (none, w') (more, msg, e) =
    (more ++ log msg (some LogLevel.error), e ∙ append_assoc w.output more _)
Grows-of_EndsInError log w (some a, w') e = e

pub Reports-Extends : {A : Type 0} {log : LogCb} {m : Action A} → Reports log m → Extends m
Reports-Extends {log} {m} h = record { at = λ w. Grows-of_EndsInError log w (m w) (h.at w) }

EndsInError-of_eq :
    {A : Type 0} (log : LogCb) (w v : World) (r : Option A × World)
    → v.output ≡ w.output
    → EndsInError log v r
    → EndsInError log w r
EndsInError-of_eq log w v (none, w') e (more, msg, h) = (more, msg, rw e at h)
EndsInError-of_eq log w v (some a, w') e h = h ∙ e

EndsInError-required :
    {A : Type 0} (log : LogCb) (msg : String) (w : World) (r : Option A × World)
    → Grows w r
    → EndsInError log w (or_fail log msg r.0 r.1)
unfolding actions
EndsInError-required log msg w (none, w') (more, e) = (more, msg, rw e)
EndsInError-required log msg w (some a, w') e = e

module _ {log : LogCb} where
  pub Reports-pure : {A : Type 0} (a : A) → Reports log (pure a)
  unfolding actions
  Reports-pure a = record { at = λ w. refl }

  pub Reports-call : (c : GlCall) → Reports log (call c)
  unfolding actions
  Reports-call c = record { at = λ w. refl }

  pub Reports-ask : {A : Type 0} (f : History → A) → Reports log (ask f)
  unfolding actions
  Reports-ask f = record { at = λ w. refl }

  pub Reports-make : (c : GlCall) (f : History → Option ℕ) → Reports log (make c f)
  unfolding actions
  Reports-make c f = record { at = λ w. refl }

  pub Reports-fail : {A : Type 0} (msg : String) → Reports log (fail {A = A} log msg)
  unfolding actions
  Reports-fail msg = record { at = λ w. ([], msg, rw append-nil) }

  pub Reports-or_fail : {A : Type 0} (msg : String) (o : Option A) → Reports log (or_fail log msg o)
  unfolding actions
  Reports-or_fail msg none = record { at = λ w. ([], msg, rw append-nil) }
  Reports-or_fail msg (some a) = record { at = λ w. refl }

  EndsInError-bind :
      {A B : Type 0} (w : World) (r : Option A × World) (f : A → Action B)
      → EndsInError log w r
      → ((a : A) → Reports log (f a))
      → EndsInError {A = B} log w (elim r.0 [ none ↦ (none, r.1) | some a ↦ f a r.1 ])
  EndsInError-bind w (none, w') f h k = h
  EndsInError-bind w (some a, w') f h k = EndsInError-of_eq log w w' (f a w') h ((k a).at w')

  pub Reports-bind :
      {A B : Type 0} {m : Action A} {f : A → Action B}
      → Reports log m
      → ((a : A) → Reports log (f a))
      → Reports log (m >>= f)
  unfolding actions
  Reports-bind {m} {f} h k = record { at = λ w. EndsInError-bind w (m w) f (h.at w) k }

  pub Reports-then :
      {B : Type 0} {m : Action (Unit {0})} {k : Action B}
      → Reports log m
      → Reports log k
      → Reports log (m >> k)
  unfolding ◌>>◌
  Reports-then h k = Reports-bind h (λ _. k)

  pub Reports-if :
      {A : Type 0} {m k : Action A} (b : Bool)
      → Reports log m
      → Reports log k
      → Reports log (if b then m else k)
  Reports-if true h k = h
  Reports-if false h k = k

  pub Reports-required :
      {A : Type 0} (msg : String) {m : Action A} → Extends m → Reports log (required log msg m)
  unfolding required
  Reports-required msg {m} h = record { at = λ w. EndsInError-required log msg w (m w) (h.at w) }

pub ruleset reports = (
  Reports-pure, Reports-call, Reports-ask, Reports-make, Reports-fail, Reports-or_fail,
  Reports-bind, Reports-then, Reports-if, Reports-required,
)

-- Inversion of an action that returned a value.
module _ {A B : Type 0} where
  bind_some :
      (r : Option A × World) (f : A → Action B) {b : B} {v : World}
      → ◌≡◌ {A = Option B × World} (elim r.0 [ none ↦ (none, r.1) | some a ↦ f a r.1 ]) (some b, v)
      → (a : A) × (w : World) × (r ≡ (some a, w)) × (f a w ≡ (some b, v))
  bind_some (none, w) f e = cc
  bind_some (some a, w) f e = (a, w, refl, e)

  pub >>=-eq-some :
      (m : Action A) (f : A → Action B) {u : World} {b : B} {v : World}
      → (m >>= f) u ≡ (some b, v)
      → (a : A) × (w : World) × (m u ≡ (some a, w)) × (f a w ≡ (some b, v))
  unfolding actions
  >>=-eq-some m f {u} e = bind_some (m u) f e

module _ {A : Type 0} where
  required_some :
      (log : LogCb) (msg : String) (r : Option A × World) {a : A} {v : World}
      → or_fail log msg r.0 r.1 ≡ (some a, v)
      → r ≡ (some a, v)
  unfolding actions
  required_some log msg (none, w) e = cc
  required_some log msg (some a, w) e = e

  pub required-eq-some :
      (log : LogCb) (msg : String) (m : Action A) {u : World} {a : A} {v : World}
      → required log msg m u ≡ (some a, v)
      → m u ≡ (some a, v)
  unfolding required
  required-eq-some log msg m {u} e = required_some log msg (m u) e
