-- ===== src/Page/Messages/Palette.antt =====
-- `mapColor` of examples/hello-spanreed/client/src/DemoPage.tsx.
use spanreed_netcode_proxy.Prelude.{ℕ, zero, suc, ◌≡◌, refl, arith}
use spanreed_netcode_proxy.Canvas.Instances.{Color8}
use spanreed_netcode_proxy.Canvas.Colors
use spanreed_netcode_proxy.Wire.UserMessage.{Color, color_value}
use spanreed_netcode_proxy.Page.Messages.{map_color}

-- The entry of `COLORS` with the name of a wire colour.
abbrev pub named : Color → Color8
named Color.red = Colors.red
named Color.green = Colors.green
named Color.blue = Colors.blue
named Color.indigo = Colors.indigo
named Color.fire_orange = Colors.fire_orange

-- The colour that a number stands for on the wire.
abbrev pub color_of : ℕ → Color
color_of (suc zero) = Color.green
color_of (suc (suc zero)) = Color.blue
color_of (suc (suc (suc zero))) = Color.indigo
color_of (suc (suc (suc (suc zero)))) = Color.fire_orange
color_of _ = Color.red

color_of-color_value : (c : Color) → color_of (color_value c) ≡ c
color_of-color_value Color.red = refl
color_of-color_value Color.green = refl
color_of-color_value Color.blue = refl
color_of-color_value Color.indigo = refl
color_of-color_value Color.fire_orange = refl

-- Every number is mapped to the entry of `COLORS` that has the name of the colour that it stands
-- for on the wire, and a number that stands for none to red.
pub map_color-color_of : (n : ℕ) → map_color n ≡ named (color_of n)
unfolding map_color
map_color-color_of zero = refl
map_color-color_of (suc zero) = refl
map_color-color_of (suc (suc zero)) = refl
map_color-color_of (suc (suc (suc zero))) = refl
map_color-color_of (suc (suc (suc (suc zero)))) = refl
map_color-color_of (suc (suc (suc (suc (suc n))))) = ground arith
