-- ===== src/Canvas/Renderer/Creation.antt =====
-- About the log of `DemoRenderer.Create`, examples/hello-spanreed/client/src/DemoRenderer.ts.
use spanreed_netcode_proxy.Prelude.{ℕ}
use spanreed_netcode_proxy.Log.{LogCb, wrap_log_fn, default_log_cb}
use spanreed_netcode_proxy.Canvas.Numbers.{Numbers}
use spanreed_netcode_proxy.Canvas.Gl.{Gl}
use spanreed_netcode_proxy.Canvas.Gl.Reports.{
  Extends, Reports, Reports-Extends, reports, Reports-bind, Reports-required, Reports-pure,
}
use spanreed_netcode_proxy.Canvas.Program.Failures.{create_program-Reports}
use spanreed_netcode_proxy.Canvas.Buffers.Leaves.{
  create_static_vertex_buffer-Extends, create_dynamic_vertex_buffer-Extends,
}
use spanreed_netcode_proxy.Canvas.Shader
use spanreed_netcode_proxy.Canvas.Shader.{SolidShader}
use spanreed_netcode_proxy.Canvas.Renderer.{create}

module _ (gl : Gl) (log : LogCb) where
  shader_create-Reports : Reports log (Shader.create gl log)
  unfolding Shader.create
  shader_create-Reports = search (reports, create_program-Reports) depth 12

  create_vao-Reports :
      (shader : SolidShader) (geo instances : ℕ)
      → Reports log (Shader.create_vao gl shader geo instances log)
  unfolding Shader.create_vao
  create_vao-Reports shader geo instances = search reports depth 30

shader_create-Extends : (gl : Gl) (log : LogCb) → Extends (Shader.create gl log)
shader_create-Extends gl log = Reports-Extends (shader_create-Reports gl log)

create_vao-Extends :
    (gl : Gl) (shader : SolidShader) (geo instances : ℕ)
    → Extends (Shader.create_vao gl shader geo instances default_log_cb)
create_vao-Extends gl shader geo instances =
    Reports-Extends (create_vao-Reports gl default_log_cb shader geo instances)

-- `Create` returns a renderer and logs nothing, or it returns `null` and the last thing that it
-- logs is an error with its own name.
pub create-Reports :
    (js : Numbers) (gl : Gl) (log : LogCb)
    → Reports (wrap_log_fn "DemoRenderer" log) (create js gl log)
unfolding create
create-Reports js gl log =
    Reports-bind (Reports-required _ (shader_create-Extends gl (wrap_log_fn "DemoRenderer" log)))
      λ shader.
        Reports-bind (Reports-required _ (create_static_vertex_buffer-Extends gl _)) λ circle.
          Reports-bind (Reports-required _ (create_dynamic_vertex_buffer-Extends gl _)) λ instances.
            Reports-bind (Reports-required _ (create_vao-Extends gl shader circle instances))
              λ vao. Reports-pure _
