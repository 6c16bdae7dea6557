-- ===== src/Ui/Console/Seeking.antt =====
-- What is not in the console of examples/hello-spanreed/client/src/Console.tsx.
use Prim.Native.String
use spanreed_netcode_proxy.Prelude.{
  ℕ, ◌+◌, ◌≡◌, refl, Bool, false, String, none, List, [], ◌∷◌, ◌++◌,
}
use spanreed_netcode_proxy.Log.{LogLevel}
use spanreed_netcode_proxy.Ui.Html.{Properties, element, children, seek, seek_in}
use spanreed_netcode_proxy.Ui.Console.{Row, row, view, row_views, row_view}

module _ {E : Type 0} (show : ℕ → String) (test : String → Properties → Bool)
    (span : (attributes : Properties) → test "span" attributes ≡ false)
    (br : (attributes : Properties) → test "br" attributes ≡ false)
    (div : (attributes : Properties) → test "div" attributes ≡ false) where
  seek-row_view : (idx : ℕ) (r : Row) → seek {E = E} test (row_view show idx r) ≡ none
  unfolding seek seek_in row_view
  seek-row_view idx r =
      rw
        (
          span [],
          span (("id", String.◌++◌ "msg-" (show idx)) ∷ []),
          span (("key", String.◌++◌ "msgidx-" (show idx)) ∷ []),
          br [],
        )
        refl

  seek_in-row_views :
      (idx : ℕ) (lines : List (String × LogLevel))
      → seek_in {E = E} test
          (children (row_views show idx lines ++ element "div" [] [] [] (children []) ∷ []))
        ≡ none
  unfolding row_views seek seek_in
  seek_in-row_views idx [] = rw (div []) refl
  seek_in-row_views idx (line ∷ lines) =
      rw (seek-row_view idx (row idx line)) (seek_in-row_views (idx + 1) lines)

  -- No element that is no `span`, `br` or `div` is in the console.
  pub seek-view : (lines : List (String × LogLevel)) → seek {E = E} test (view show lines) ≡ none
  unfolding view seek seek_in
  seek-view lines = rw (div []) (seek_in-row_views 0 lines)
