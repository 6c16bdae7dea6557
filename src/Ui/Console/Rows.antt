-- ===== src/Ui/Console/Rows.antt =====
-- The rows of the console and the lines that they show
-- (examples/hello-spanreed/client/src/Console.tsx).
use mathlib.Core.Option
use spanreed_netcode_proxy.Prelude.{
  ℕ, zero, suc, ◌+◌, ◌≡◌, refl, ap, List, [], ◌∷◌, ◌++◌, String, length, get_elem?, arith,
}
use spanreed_netcode_proxy.Log.{LogLevel}
use spanreed_netcode_proxy.Ui.Console.{row, rows, rows_from}

get_elem?-rows_from :
    (lines : List (String × LogLevel)) (idx k : ℕ)
    → get_elem? (rows_from idx lines) k ≡ Option.map (row (idx + k)) (get_elem? lines k)
unfolding rows_from
get_elem?-rows_from [] idx k = refl
get_elem?-rows_from (line ∷ lines) idx zero = let same : idx + 0 ≡ idx = omega arith in rw same
get_elem?-rows_from (line ∷ lines) idx (suc k) =
    let next : idx + 1 + k ≡ idx + suc k = omega arith in
    rw next at (get_elem?-rows_from lines (idx + 1) k)

-- Row `k` shows line `k`, numbered `k + 1`, and there are no other rows.
pub get_elem?-rows :
    (lines : List (String × LogLevel)) (k : ℕ)
    → get_elem? (rows lines) k ≡ Option.map (row k) (get_elem? lines k)
unfolding rows
get_elem?-rows lines k =
    let start : 0 + k ≡ k = omega arith in rw start at (get_elem?-rows_from lines 0 k)

rows_from-append :
    (lines more : List (String × LogLevel)) (idx : ℕ)
    → rows_from idx (lines ++ more) ≡ rows_from idx lines ++ rows_from (idx + length lines) more
unfolding rows_from
rows_from-append [] more idx = let same : idx + 0 ≡ idx = omega arith in rw same
rows_from-append (line ∷ lines) more idx =
    let next : idx + 1 + length lines ≡ idx + suc (length lines) = omega arith in
    ap (λ rs. row idx line ∷ rs) (rw next at (rows_from-append lines more (idx + 1)))

-- A new line adds one row at the end, with the next number, and changes no row above it.
rows-append :
    (lines : List (String × LogLevel)) (line : String × LogLevel)
    → rows (lines ++ line ∷ []) ≡ rows lines ++ row (length lines) line ∷ []
unfolding rows rows_from
rows-append lines line =
    let start : 0 + length lines ≡ length lines = omega arith in
    rw start at (rows_from-append lines (line ∷ []) 0)
