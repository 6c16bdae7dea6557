-- ===== src/Canvas/Colors.antt =====
-- examples/hello-spanreed/client/src/colors.ts
use spanreed_netcode_proxy.Canvas.Instances.{Color8}

abbrev pub red : Color8
red = record { red = 229; green = 47; blue = 15 }

abbrev pub green : Color8
green = record { red = 168; green = 224; blue = 157 }

abbrev pub blue : Color8
blue = record { red = 70; green = 194; blue = 219 }

abbrev pub indigo : Color8
indigo = record { red = 167; green = 83; blue = 255 }

abbrev pub fire_orange : Color8
fire_orange = record { red = 246; green = 206; blue = 29 }
