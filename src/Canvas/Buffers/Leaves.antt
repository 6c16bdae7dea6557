-- ===== src/Canvas/Buffers/Leaves.antt =====
-- The effect of the buffer functions of examples/hello-spanreed/client/src/glutils.ts.
use spanreed_netcode_proxy.Prelude.{ℕ, inl, inr, Option-cases, [], sym, append-nil, List}
use spanreed_netcode_proxy.Canvas.Numbers.{F32}
use spanreed_netcode_proxy.Canvas.Gl.{Gl, actions, or_null}
use spanreed_netcode_proxy.Canvas.Gl.Reports.{Extends}
use spanreed_netcode_proxy.Canvas.Buffers.{
  create_static_vertex_buffer, create_dynamic_vertex_buffer,
}

module _ (gl : Gl) where
  pub create_static_vertex_buffer-Extends :
      (data_ : List F32) → Extends (create_static_vertex_buffer gl data_)
  unfolding create_static_vertex_buffer actions
  create_static_vertex_buffer-Extends data_ = record {
    at = λ w. elim (Option-cases (gl.new_buffer w.calls)) [
      | inl e ↦ rw (e, or_null) ([], sym (append-nil w.output))
      | inr (b, e) ↦ rw (e, or_null)
    ];
  }

  pub create_dynamic_vertex_buffer-Extends :
      (size_ : ℕ) → Extends (create_dynamic_vertex_buffer gl size_)
  unfolding create_dynamic_vertex_buffer actions
  create_dynamic_vertex_buffer-Extends size_ = record {
    at = λ w. elim (Option-cases (gl.new_buffer w.calls)) [
      | inl e ↦ rw (e, or_null) ([], sym (append-nil w.output))
      | inr (b, e) ↦ rw (e, or_null)
    ];
  }
