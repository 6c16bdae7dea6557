-- ===== src/Canvas/Gl.antt =====
-- The WebGL2 context as the client uses it. The context is not code of the repository: what it
-- answers is a parameter, a function of the calls made so far. The client's own part, which calls
-- it makes and in which order, is recorded.
use spanreed_netcode_proxy.Prelude.{ℕ, Bool, Option, none, some, String, List, [], ◌∷◌, ◌++◌}
use spanreed_netcode_proxy.Log.{LogLevel, Output, LogCb}
use spanreed_netcode_proxy.Canvas.Numbers.{F32}
use spanreed_netcode_proxy.Canvas.ArrayBuffer.{ArrayBuffer}
pub mod Bindings
pub mod Reports

pub data ShaderType : Type 0 where
  vertex_shader fragment_shader : ShaderType

pub data Usage : Type 0 where
  static_draw dynamic_draw : Usage

pub data ComponentType : Type 0 where
  float unsigned_byte : ComponentType

-- What `bufferData` is given: the data, or a size in bytes.
pub data BufferSource : Type 0 where
  contents : List F32 → BufferSource
  size : ℕ → BufferSource

-- The format that `vertexAttribPointer` sets.
pub record Pointer : Type 0 where
  pub components : ℕ
  pub component_type : ComponentType
  pub normalized : Bool
  pub stride : ℕ
  pub offset : ℕ

-- A colour, each component in ten-thousandths.
pub record Rgba : Type 0 where
  pub r : ℕ
  pub g : ℕ
  pub b : ℕ
  pub a : ℕ

-- Objects are numbers, `null` is `none`; an attribute that is not found has location `none` (-1).
-- `ARRAY_BUFFER` is the only binding point that the client uses.
pub data GlCall : Type 0 where
  create_buffer create_program create_vertex_array : GlCall
  create_shader : ShaderType → GlCall
  bind_buffer bind_vertex_array use_program : Option ℕ → GlCall
  buffer_data : BufferSource → Usage → GlCall
  buffer_sub_data : ℕ → ArrayBuffer → GlCall
  shader_source : ℕ → String → GlCall
  compile_shader link_program : ℕ → GlCall
  attach_shader : ℕ → ℕ → GlCall
  enable_vertex_attrib_array : Option ℕ → GlCall
  vertex_attrib_pointer : Option ℕ → Pointer → GlCall
  vertex_attrib_divisor : Option ℕ → ℕ → GlCall
  uniform_2f : ℕ → ℕ → ℕ → GlCall
  draw_arrays_instanced : (first count instances : ℕ) → GlCall
  clear_color : (color : Rgba) → GlCall
  clear : GlCall
  viewport : (width height : ℕ) → GlCall

-- The calls so far, the last one first.
abbrev pub History : Type 0
History = List GlCall

pub record Gl : Type 0 where
  pub new_buffer : History → Option ℕ
  pub new_shader : History → Option ℕ
  pub new_program : History → Option ℕ
  pub new_vertex_array : History → Option ℕ
  pub compile_status : History → ℕ → Bool
  pub link_status : History → ℕ → Bool
  pub shader_info_log : History → ℕ → String
  pub program_info_log : History → ℕ → String
  pub attrib_location : History → ℕ → String → Option ℕ
  pub uniform_location : History → ℕ → String → Option ℕ

-- What the client has done: its calls of the context, and its log output, oldest first.
pub record World : Type 0 where
  pub calls : History
  pub output : List Output

-- A function that may return `null`.
abbrev pub Action : Type 0 → Type 0
Action A = World → Option A × World

infixl 5 ◌>>=◌ ◌>>◌
unfoldable pub ◌>>=◌ : {A B : Type 0} → Action A → (A → Action B) → Action B
◌>>=◌ m f w = let (r, w') = m w in elim r [ none ↦ (none, w') | some a ↦ f a w' ]

unfoldable pub ◌>>◌ : {B : Type 0} → Action (Unit {0}) → Action B → Action B
m >> k = m >>= λ _. k

unfoldable pub pure : {A : Type 0} → A → Action A
pure a w = (some a, w)

unfoldable pub call : GlCall → Action (Unit {0})
call c w = (some tt, record w { calls = c ∷ w.calls })

-- A question to the context.
unfoldable pub ask : {A : Type 0} → (History → A) → Action A
ask f w = (some (f w.calls), w)

-- A call that makes an object, or `null`; the answer is left to the caller.
unfoldable pub make : GlCall → (History → Option ℕ) → Action (Option ℕ)
make c f w = (some (f w.calls), record w { calls = c ∷ w.calls })

-- `log(msg, LogLevel.Error); return null;`
unfoldable pub fail : {A : Type 0} → LogCb → String → Action A
fail log msg w = (none, record w { output = w.output ++ log msg (some LogLevel.error) })

-- `if (!x) return null;`
unfoldable pub or_null : {A : Type 0} → Option A → Action A
or_null x w = (x, w)

-- `if (!x) { log(msg, LogLevel.Error); return null; }`
unfoldable pub or_fail : {A : Type 0} → LogCb → String → Option A → Action A
or_fail log msg none = fail log msg
or_fail log msg (some a) = pure a

-- `x = f(); if (!x) { log(msg, LogLevel.Error); return null; }` for an `f` that may return `null`.
pub required : {A : Type 0} → LogCb → String → Action A → Action A
unfolding or_fail fail pure
required log msg m w = let (r, w') = m w in or_fail log msg r w'

-- Names all of the above on one `unfolding` line.
unfoldable pub actions : Unit {0}
unfolding ◌>>=◌ ◌>>◌ pure call ask make fail or_null or_fail required
actions = tt
