-- ===== src/Ui/Html.antt =====
-- What the components of examples/hello-spanreed/client/src render: JSX as a tree. A handler is the
-- event that it reports.
use spanreed_netcode_proxy.Prelude.{
  Bool, true, false, Option, none, some, String, List, [], ◌∷◌, if◌then◌else◌,
}
use text.Mathlib.Text

-- Names with their values, of a style or of attributes. Of two values of a name the later counts.
abbrev pub Properties : Type 0
Properties = List (String × String)

abbrev or_else : Option String → Option String → Option String
or_else none o = o
or_else (some v) o = some v

abbrev pub property : String → Properties → Option String
property name [] = none
property name ((n, v) ∷ rest) =
    or_else (property name rest) (if Text.◌==◌ n name then some v else none)

-- `...(c && style)`
abbrev pub when : Bool → Properties → Properties
when true style = style
when false style = []

-- `E` is what the events of the tree are.
pub data Handler (E : Type 0) : Type 0 where
  on_click on_mouse_enter on_mouse_leave : E → Handler E
  on_change on_key_down : (String → E) → Handler E

mutual
  pub data Html (E : Type 0) : Type 0 where
    words : String → Html E
    element :
        (tag : String) → (attributes style : Properties) → List (Handler E) → Children E → Html E

  pub data Children (E : Type 0) : Type 0 where
    nil : Children E
    cons : Html E → Children E → Children E

abbrev is_named : String → Option String → Bool
is_named id none = false
is_named id (some name) = Text.◌==◌ id name

module _ {E : Type 0} where
  abbrev pub children : List (Html E) → Children E
  children [] = nil
  children (h ∷ hs) = cons h (children hs)

  -- A child that is shown on a condition: `{c && h}`.
  abbrev pub shown : Bool → Html E → List (Html E)
  shown true h = h ∷ []
  shown false h = []

  abbrev pub first : Option (Html E) → Option (Html E) → Option (Html E)
  first none o = o
  first (some h) o = some h

  -- The first element that a test of the tag and the attributes accepts.
  unfoldable mutual
    pub seek : (String → Properties → Bool) → Html E → Option (Html E)
    seek test (words s) = none
    seek test (element tag attributes style hs inside) =
        if test tag attributes
        then some (element tag attributes style hs inside)
        else seek_in test inside

    pub seek_in : (String → Properties → Bool) → Children E → Option (Html E)
    seek_in test nil = none
    seek_in test (cons h hs) = first (seek test h) (seek_in test hs)

  -- `getElementById`
  unfoldable pub by_id : String → Html E → Option (Html E)
  unfolding seek seek_in
  by_id id h = seek (λ tag attributes. is_named id (property "id" attributes)) h

  abbrev change_in : List (Handler E) → Option (String → E)
  change_in [] = none
  change_in (on_change f ∷ hs) = some f
  change_in (_ ∷ hs) = change_in hs

  abbrev pub click_in : List (Handler E) → Option E
  click_in [] = none
  click_in (on_click e ∷ hs) = some e
  click_in (_ ∷ hs) = click_in hs

  -- What an input shows, and the event when a text is typed into it.
  abbrev pub value_of : Html E → Option String
  value_of (words s) = none
  value_of (element tag attributes style hs inside) = property "value" attributes

  abbrev pub typed_into : Html E → Option (String → E)
  typed_into (words s) = none
  typed_into (element tag attributes style hs inside) = change_in hs

module _ {E F : Type 0} (f : E → F) where
  abbrev map_handlers : List (Handler E) → List (Handler F)
  map_handlers [] = []
  map_handlers (on_click e ∷ hs) = on_click (f e) ∷ map_handlers hs
  map_handlers (on_mouse_enter e ∷ hs) = on_mouse_enter (f e) ∷ map_handlers hs
  map_handlers (on_mouse_leave e ∷ hs) = on_mouse_leave (f e) ∷ map_handlers hs
  map_handlers (on_change g ∷ hs) = on_change (λ s. f (g s)) ∷ map_handlers hs
  map_handlers (on_key_down g ∷ hs) = on_key_down (λ s. f (g s)) ∷ map_handlers hs

  -- A component inside another, which names its events.
  mutual
    within : Html E → Html F
    within (words s) = words s
    within (element tag attributes style hs inside) =
        element tag attributes style (map_handlers hs) (all_within inside)

    all_within : Children E → Children F
    all_within nil = nil
    all_within (cons h hs) = cons (within h) (all_within hs)

-- A component as a child.
unfoldable pub component : {E F : Type 0} → (E → F) → Html E → Html F
unfolding within all_within
component f h = within f h
