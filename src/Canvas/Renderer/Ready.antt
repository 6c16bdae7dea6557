-- ===== src/Canvas/Renderer/Ready.antt =====
-- About the renderer of `DemoRenderer.Create`, examples/hello-spanreed/client/src/DemoRenderer.ts.
use spanreed_netcode_proxy.Prelude.{◌*◌, ℕ, none, some, ◌≡◌, arith}
use spanreed_netcode_proxy.Log.{LogCb, wrap_log_fn, default_log_cb}
use spanreed_netcode_proxy.Canvas.Gl.{Gl, World, actions, pure}
use spanreed_netcode_proxy.Canvas.Gl.Bindings.{bound_buffer, bound_vertex_array}
use spanreed_netcode_proxy.Canvas.Gl.Reports.{>>=-eq-some, required-eq-some}
use spanreed_netcode_proxy.Canvas.Numbers.{Numbers}
use spanreed_netcode_proxy.Canvas.ArrayBuffer.{new_array_buffer}
use spanreed_netcode_proxy.Canvas.Instances.{max_instance_count}
use spanreed_netcode_proxy.Canvas.Renderer.{DemoRenderer, create}
use spanreed_netcode_proxy.Canvas.Shader
use spanreed_netcode_proxy.Canvas.Shader.{SolidShader}

create_vao_bindings :
    (gl : Gl) (shader : SolidShader) (geo instances : ℕ) (log : LogCb) (w : World) {vao : ℕ}
    {w' : World}
    → Shader.create_vao gl shader geo instances log w ≡ (some vao, w')
    → (bound_vertex_array w'.calls ≡ none) × (bound_buffer w'.calls ≡ some instances)
unfolding Shader.create_vao bound_buffer bound_vertex_array actions
create_vao_bindings gl shader geo instances log w e = ground arith

-- What holds of the renderer and of the context when `Create` has returned one.
pub record IsReady (r : DemoRenderer) (w : World) : Type 0 where
  pub empty_buffer : r.cpu_instance_buffer ≡ new_array_buffer (16 * max_instance_count)
  pub nothing_drawn : r.instance_ct ≡ 0
  pub not_started : r.raf ≡ none
  pub no_vertex_array : bound_vertex_array w.calls ≡ none
  pub instance_buffer_bound : bound_buffer w.calls ≡ some r.gpu_instance_buffer

IsReady-of_bindings :
    (shader : SolidShader) (vao instances : ℕ) (log : LogCb) (w : World) {r : DemoRenderer}
    {w' : World}
    → (bound_vertex_array w.calls ≡ none) × (bound_buffer w.calls ≡ some instances)
    → pure
        (record {
          raf = none;
          solid_shader = shader;
          vao = vao;
          gpu_instance_buffer = instances;
          cpu_instance_buffer = new_array_buffer (16 * max_instance_count);
          log = log;
          instance_ct = 0;
        })
        w
      ≡ (some r, w')
    → IsReady r w'
unfolding actions
IsReady-of_bindings shader vao instances log w b e = ground arith

-- A renderer that `Create` returns has room for the instances, draws nothing yet, and has left
-- no vertex array bound. Its instance buffer is still bound.
pub create-IsReady :
    (js : Numbers) (gl : Gl) (log : LogCb) (w : World) {r : DemoRenderer} {w' : World}
    → create js gl log w ≡ (some r, w')
    → IsReady r w'
unfolding create
create-IsReady js gl log w e =
    let (shader, w1, e1, f1) = >>=-eq-some _ _ e in
    let (circle, w2, e2, f2) = >>=-eq-some _ _ f1 in
    let (instances, w3, e3, f3) = >>=-eq-some _ _ f2 in
    let (vao, w4, e4, f4) = >>=-eq-some _ _ f3 in
    IsReady-of_bindings shader vao instances (wrap_log_fn "DemoRenderer" log) w4
      (create_vao_bindings gl shader circle instances default_log_cb w3 (required-eq-some _ _ _ e4))
      f4
