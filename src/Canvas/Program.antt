-- ===== src/Canvas/Program.antt =====
-- examples/hello-spanreed/client/src/glutils.ts: `createProgram`.
pub mod Failures
use Prim.Native.String
use spanreed_netcode_proxy.Prelude.{
  ℕ, Bool, true, false, Option, some, String, is_some, if◌then◌else◌,
}
use spanreed_netcode_proxy.Log.{LogCb}
use spanreed_netcode_proxy.Canvas.Gl.{
  vertex_shader, fragment_shader, create_program as create_program_call, create_shader,
  shader_source, compile_shader, link_program, attach_shader, Gl, Action, ◌>>=◌, ◌>>◌, pure, call,
  ask, make, fail,
}

infixr 60 ◌+++◌
abbrev ◌+++◌ : String → String → String
s +++ t = String.◌++◌ s t

-- `${b}`
abbrev show_bool : Bool → String
show_bool true = "true"
show_bool false = "false"

unfoldable pub allocation_message : Option ℕ → Option ℕ → Option ℕ → String
allocation_message vs fs program =
    "Failed to allocate GL objects ("
    +++ "vs="
    +++ show_bool (is_some vs)
    +++ ", "
    +++ "fs="
    +++ show_bool (is_some fs)
    +++ ", "
    +++ "program="
    +++ show_bool (is_some program)
    +++ ")"

module _ (gl : Gl) (log : LogCb) where
  -- `if (!vertexShader || !fragmentShader || !program) { … }`
  unfoldable pub all_allocated : Option ℕ → Option ℕ → Option ℕ → Action (ℕ × ℕ × ℕ)
  all_allocated (some vs) (some fs) (some program) = pure (vs, fs, program)
  all_allocated vs fs program = fail log (allocation_message vs fs program)

  -- Sources and compiles one shader; `prefix` is the text of its error message.
  unfoldable pub compile : String → ℕ → String → Action (Unit {0})
  compile prefix shader source = do
    call (shader_source shader source)
    call (compile_shader shader)
    compiled ← ask (λ h. gl.compile_status h shader)
    error_message ← ask (λ h. gl.shader_info_log h shader)
    if compiled then pure tt else fail log (prefix +++ error_message)

  unfoldable pub create_program : (vertex_source fragment_source : String) → Action ℕ
  create_program vertex_source fragment_source = do
    vs? ← make (create_shader vertex_shader) gl.new_shader
    fs? ← make (create_shader fragment_shader) gl.new_shader
    program? ← make create_program_call gl.new_program
    (vs, fs, program) ← all_allocated vs? fs? program?
    compile "Failed to compile vertex shader: " vs vertex_source
    compile "Failed to compile fragment shader: " fs fragment_source
    call (attach_shader program vs)
    call (attach_shader program fs)
    call (link_program program)
    linked ← ask (λ h. gl.link_status h program)
    error_message ← ask (λ h. gl.program_info_log h program)
    if linked then pure program else fail log ("Failed to link GPU program: " +++ error_message)
