-- ===== src/Canvas/Numbers.antt =====
-- JavaScript's numbers (IEEE doubles) and the functions of `Math` that the client calls. They are
-- not code of the repository, so they are a parameter.
use spanreed_netcode_proxy.Prelude.{ℕ}

-- The four bytes of a 32-bit float, in the platform's order.
pub record F32 : Type 0 where
  pub b0 : ℕ
  pub b1 : ℕ
  pub b2 : ℕ
  pub b3 : ℕ

pub record Numbers : Type 1 where
  pub Number : Type 0
  pub number : ℕ → Number
  pub add : Number → Number → Number
  pub sub : Number → Number → Number
  pub mul : Number → Number → Number
  pub div : Number → Number → Number
  pub pi : Number
  pub cos : Number → Number
  pub sin : Number → Number
  pub fround : Number → F32
