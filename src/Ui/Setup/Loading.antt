-- ===== src/Ui/Setup/Loading.antt =====
-- The `loading` state of the form of
-- examples/hello-spanreed/client/src/ConnectionStateComponent.tsx.
use spanreed_netcode_proxy.Prelude.{◌≡◌, ◌⊎◌, inl, inr, true, false, List, [], ◌∷◌, arith}
use spanreed_netcode_proxy.Log.{LogCb}
use spanreed_netcode_proxy.Ui.Setup.{
  Attempt, Setup, Event, toggled, connect_clicked, user_name_typed, span_url_typed, dest_url_typed,
  settled, resolved, rejected, chosen, handle, run,
}

abbrev pub IsFor : Attempt → Setup → Type 0
IsFor a s = (a.user_name ≡ s.user_name) × (a.span_url ≡ s.span_url) × (a.dest_url ≡ s.dest_url)

-- The form rests with no attempt in flight, or is loading with one, made with its texts.
abbrev pub IsOrderly : Setup → Type 0
IsOrderly s =
    ((s.loading ≡ false) × (s.in_flight ≡ []))
    ⊎ ((a : Attempt) × (s.loading ≡ true) × (s.in_flight ≡ a ∷ []) × IsFor a s)

module _ (log_cb : LogCb) where
  handle-IsOrderly : (e : Event) (s : Setup) → IsOrderly s → IsOrderly (handle log_cb e s)
  unfolding handle
  handle-IsOrderly toggled s h = h
  handle-IsOrderly connect_clicked s (inl h) = inr (
    record {
      transport = chosen log_cb s.left_selected;
      span_url = s.span_url;
      dest_url = s.dest_url;
      user_name = s.user_name;
    },
    ground arith,
    ground arith,
    ground arith,
  )
  handle-IsOrderly connect_clicked s (inr (a, loads, flies, shown)) =
      inr (a, ground arith, ground arith, ground arith)
  handle-IsOrderly (user_name_typed v) s (inl h) = inl (ground arith)
  handle-IsOrderly (user_name_typed v) s (inr (a, loads, flies, shown)) =
      inr (a, ground arith, ground arith, ground arith)
  handle-IsOrderly (span_url_typed v) s (inl h) = inl (ground arith)
  handle-IsOrderly (span_url_typed v) s (inr (a, loads, flies, shown)) =
      inr (a, ground arith, ground arith, ground arith)
  handle-IsOrderly (dest_url_typed v) s (inl h) = inl (ground arith)
  handle-IsOrderly (dest_url_typed v) s (inr (a, loads, flies, shown)) =
      inr (a, ground arith, ground arith, ground arith)
  handle-IsOrderly (settled (resolved id)) s h = inl (ground arith)
  handle-IsOrderly (settled (rejected e)) s h = inl (ground arith)

  -- If the form is loading exactly while one attempt is in flight, with the texts that the form
  -- shows, then it stays so, whatever the user does and however the attempts end.
  pub run-IsOrderly : (es : List Event) (s : Setup) → IsOrderly s → IsOrderly (run log_cb es s)
  unfolding run
  run-IsOrderly [] s h = h
  run-IsOrderly (e ∷ es) s h = run-IsOrderly es (handle log_cb e s) (handle-IsOrderly e s h)
