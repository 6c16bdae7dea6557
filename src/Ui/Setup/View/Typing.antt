-- ===== src/Ui/Setup/View/Typing.antt =====
-- What a user sees who types into the form of
-- examples/hello-spanreed/client/src/ConnectionStateComponent.tsx.
use spanreed_netcode_proxy.Prelude.{
  arith, ◌≡◌, refl, ap, ◌∙◌, Bool, true, false, String, Option, none, some, if◌then◌else◌,
}
use spanreed_netcode_proxy.Log.{LogCb}
use spanreed_netcode_proxy.Ui.Html.{Html, by_id, value_of, typed_into}
use spanreed_netcode_proxy.Ui.Setup.{Setup, handle, user_name_typed, span_url_typed, dest_url_typed}
use spanreed_netcode_proxy.Ui.Setup.View.{
  SetupView, ViewEvent, on_form, step, view, header, address_inputs, transport_switch,
}

-- The inputs of the form.
pub data Field : Type 0 where
  user_name span_url dest_url : Field

abbrev pub id_of : Field → String
id_of user_name = "tb-username"
id_of span_url = "tb-spanreed-url"
id_of dest_url = "tb-backend-url"

abbrev pub text_in : Field → Setup → String
text_in user_name s = s.user_name
text_in span_url s = s.span_url
text_in dest_url s = s.dest_url

abbrev pub is_same : Field → Field → Bool
is_same user_name user_name = true
is_same span_url span_url = true
is_same dest_url dest_url = true
is_same _ _ = false

abbrev value_if_any : Option (Html ViewEvent) → Option String
value_if_any none = none
value_if_any (some h) = value_of h

abbrev typed_if_any : Option (Html ViewEvent) → Option (String → ViewEvent)
typed_if_any none = none
typed_if_any (some h) = typed_into h

-- What the input shows on the page, and what it reports of a text that is typed.
abbrev pub shows : Field → SetupView → Option String
shows f v = value_if_any (by_id (id_of f) (view v))

abbrev pub reports : Field → SetupView → Option (String → ViewEvent)
reports f v = typed_if_any (by_id (id_of f) (view v))

shows-text_in : (f : Field) (v : SetupView) → shows f v ≡ some (text_in f v.form)
unfolding by_id view header address_inputs transport_switch
shows-text_in user_name v = refl
shows-text_in span_url v = refl
shows-text_in dest_url v = refl

abbrev reported : Field → String → ViewEvent
reported user_name t = on_form (user_name_typed t)
reported span_url t = on_form (span_url_typed t)
reported dest_url t = on_form (dest_url_typed t)

reports-reported : (f : Field) (v : SetupView) → reports f v ≡ some (reported f)
unfolding by_id view header address_inputs transport_switch
reports-reported user_name v = refl
reports-reported span_url v = refl
reports-reported dest_url v = refl

-- What an input shows, when a text was typed into the same or another.
abbrev pub typed_text : Bool → Bool → (old t : String) → String
typed_text loading same old t = if same then (if loading then old else t) else old

text_in-step :
    (log_cb : LogCb) (f k : Field) (t : String) (v : SetupView)
    → text_in k (step log_cb (reported f t) v).form
      ≡ typed_text v.form.loading (is_same f k) (text_in k v.form) t
unfolding step handle
text_in-step log_cb user_name k t v = ground arith
text_in-step log_cb span_url k t v = ground arith
text_in-step log_cb dest_url k t v = ground arith

-- A user types into an input of the form, as it is rendered: it then shows the new text, unless the
-- form is loading, and every other input shows what it showed.
pub shows-step :
    (log_cb : LogCb) (f k : Field) (t : String) (v : SetupView)
    → (typed : String → ViewEvent) × (old : String) × (reports f v ≡ some typed)
      × (shows k v ≡ some old)
      × (shows k (step log_cb (typed t) v) ≡ some (typed_text v.form.loading (is_same f k) old t))
shows-step log_cb f k t v = (
  reported f,
  text_in k v.form,
  reports-reported f v,
  shows-text_in k v,
  shows-text_in k (step log_cb (reported f t) v) ∙ ap some (text_in-step log_cb f k t v),
)
