-- ===== src/Canvas/Buffers.antt =====
-- examples/hello-spanreed/client/src/glutils.ts: the vertex buffers.
pub mod Leaves
use spanreed_netcode_proxy.Prelude.{ℕ, none, some, List}
use spanreed_netcode_proxy.Canvas.Numbers.{F32}
use spanreed_netcode_proxy.Canvas.Gl.{
  contents, size, static_draw, dynamic_draw, create_buffer, bind_buffer, buffer_data, Gl, Action,
  ◌>>=◌, ◌>>◌, pure, call, make, or_null,
}

module _ (gl : Gl) where
  unfoldable pub create_static_vertex_buffer : List F32 → Action ℕ
  create_static_vertex_buffer data_ = do
    buffer ← or_null (← make create_buffer gl.new_buffer)
    call (bind_buffer (some buffer))
    call (buffer_data (contents data_) static_draw)
    call (bind_buffer none)
    pure buffer

  -- There is no test of the new buffer here: `null` is bound, and returned.
  unfoldable pub create_dynamic_vertex_buffer : ℕ → Action ℕ
  create_dynamic_vertex_buffer size_ = do
    buffer ← make create_buffer gl.new_buffer
    call (bind_buffer buffer)
    call (buffer_data (size size_) dynamic_draw)
    call (bind_buffer none)
    or_null buffer
