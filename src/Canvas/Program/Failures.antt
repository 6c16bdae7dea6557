-- ===== src/Canvas/Program/Failures.antt =====
-- How `createProgram` of examples/hello-spanreed/client/src/glutils.ts ends.
use spanreed_netcode_proxy.Prelude.{ℕ, true, Option, some, String, ◌≡◌, arith}
use spanreed_netcode_proxy.Log.{LogCb}
use spanreed_netcode_proxy.Canvas.Gl.{Gl, World, actions}
use spanreed_netcode_proxy.Canvas.Gl.Reports.{Reports, reports}
use spanreed_netcode_proxy.Canvas.Program.{all_allocated, compile, create_program}

module _ (gl : Gl) (log : LogCb) where
  all_allocated-Reports :
      (vs fs program : Option ℕ) → Reports log (all_allocated gl log vs fs program)
  unfolding all_allocated
  all_allocated-Reports (some vs) (some fs) (some program) = search reports
  all_allocated-Reports vs fs program = search reports

  compile-Reports :
      (prefix : String) (shader : ℕ) (source : String)
      → Reports log (compile gl log prefix shader source)
  unfolding compile
  compile-Reports prefix shader source = search reports depth 8

  pub create_program-Reports : (vs fs : String) → Reports log (create_program gl log vs fs)
  unfolding create_program
  create_program-Reports vs fs = search (reports, all_allocated-Reports, compile-Reports) depth 20

  -- A program that is returned has been linked.
  create_program_linked :
      (vs fs : String) (w : World) {p : ℕ} {w' : World}
      → create_program gl log vs fs w ≡ (some p, w')
      → gl.link_status w'.calls p ≡ true
  unfolding create_program all_allocated compile actions
  create_program_linked vs fs w h = ground arith
