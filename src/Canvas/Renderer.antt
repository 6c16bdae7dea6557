-- ===== src/Canvas/Renderer.antt =====
-- examples/hello-spanreed/client/src/DemoRenderer.ts: `class DemoRenderer`.
pub mod Creation
pub mod Upload
pub mod Ready
use spanreed_netcode_proxy.Prelude.{
  ℕ, ◌*◌, Option, none, some, List, map, length, take, if◌then◌else◌,
}
use spanreed_netcode_proxy.Log.{LogCb, wrap_log_fn, default_log_cb}
use spanreed_netcode_proxy.Canvas.Numbers.{Numbers}
use spanreed_netcode_proxy.Canvas.ArrayBuffer.{ArrayBuffer, new_array_buffer}
use spanreed_netcode_proxy.Canvas.Geometry.{build_circle_vertex_buffer_data}
use spanreed_netcode_proxy.Canvas.Instances.{Instance, max_instance_count, write_instances}
use spanreed_netcode_proxy.Canvas.Gl.{
  ◌>>=◌, ◌>>◌, Action, Gl, World, actions, bind_buffer, buffer_sub_data, call, required, pure,
}
use spanreed_netcode_proxy.Canvas.Buffers.{
  create_static_vertex_buffer, create_dynamic_vertex_buffer,
}
use spanreed_netcode_proxy.Canvas.Shader
use spanreed_netcode_proxy.Canvas.Shader.{SolidShader}

abbrev pub circle_segment_count : ℕ
circle_segment_count = 20

-- `raf` is the handle of the animation frame that was requested last.
pub record DemoRenderer : Type 0 where
  pub raf : Option ℕ
  pub solid_shader : SolidShader
  pub vao : ℕ
  pub gpu_instance_buffer : ℕ
  pub cpu_instance_buffer : ArrayBuffer
  pub log : LogCb
  pub instance_ct : ℕ

module _ (js : Numbers) (gl : Gl) where
  -- `DemoRenderer.Create`; `createVao` is called without a log callback.
  unfoldable pub create : LogCb → Action DemoRenderer
  create log_fn = do
    let log = wrap_log_fn "DemoRenderer" log_fn
    let circle_geo = map (js.fround) (build_circle_vertex_buffer_data js circle_segment_count)
    solid_shader ←
        required log "Failed to create solid shader, cannot create DemoRenderer"
          (Shader.create gl log)
    circle_buffer ←
        required log "Failed to create dot vertex buffer, cannot create DemoRenderer"
          (create_static_vertex_buffer gl circle_geo)
    instance_buffer ←
        required log "Failed to create instance buffer, cannot create DemoRenderer"
          (create_dynamic_vertex_buffer gl (16 * max_instance_count))
    vao ←
        required log "Failed to create dot VAO, cannot create DemoRenderer"
          (Shader.create_vao gl solid_shader circle_buffer instance_buffer default_log_cb)
    pure (record {
      raf = none;
      solid_shader = solid_shader;
      vao = vao;
      gpu_instance_buffer = instance_buffer;
      cpu_instance_buffer = new_array_buffer (16 * max_instance_count);
      log = log;
      instance_ct = 0;
    })

-- How a method ended: it returned, or a RangeError was thrown.
pub data Completion : Type 0 where
  returned range_error : Completion

-- What follows the loop in `setInstances`, if it did not throw.
upload : DemoRenderer → ℕ → World → Completion × DemoRenderer × World
upload r used w =
    let (_, w') =
      (do
        call (bind_buffer (some r.gpu_instance_buffer))
        call (buffer_sub_data 0 r.cpu_instance_buffer)
        call (bind_buffer none))
        w in
    (returned, record r { instance_ct = used }, w')

module _ (js : Numbers) where
  -- `setInstances`: `toUse` is cut to the capacity, and the loop runs over all of `instances`.
  unfoldable pub set_instances :
      List (Instance js) → DemoRenderer → World → Completion × DemoRenderer × World
  unfolding upload actions
  set_instances instances r w =
      let to_use = take max_instance_count instances in
      let (buffer, threw) = write_instances js 0 instances r.cpu_instance_buffer in
      let r' = record r { cpu_instance_buffer = buffer } in
      if threw then (range_error, r', w) else upload r' (length to_use) w
