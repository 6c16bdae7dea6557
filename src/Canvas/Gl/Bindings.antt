-- ===== src/Canvas/Gl/Bindings.antt =====
-- What is bound after a history, as WebGL documents it: the last call for a binding point counts.
use spanreed_netcode_proxy.Prelude.{ℕ, Option, none, [], ◌∷◌}
use spanreed_netcode_proxy.Canvas.Gl.{bind_buffer, bind_vertex_array, use_program, History}

unfoldable pub bound_buffer : History → Option ℕ
bound_buffer [] = none
bound_buffer (bind_buffer b ∷ h) = b
bound_buffer (_ ∷ h) = bound_buffer h

unfoldable pub bound_vertex_array : History → Option ℕ
bound_vertex_array [] = none
bound_vertex_array (bind_vertex_array v ∷ h) = v
bound_vertex_array (_ ∷ h) = bound_vertex_array h

unfoldable pub used_program : History → Option ℕ
used_program [] = none
used_program (use_program p ∷ h) = p
used_program (_ ∷ h) = used_program h
