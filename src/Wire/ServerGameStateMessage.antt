-- ===== src/Wire/ServerGameStateMessage.antt =====
-- gen/hello-spanreed/server-game-state-message.ts: `class ServerGameStateMessage`.
use spanreed_netcode_proxy.Prelude.{ℕ, Option, none, some, ◌+◌, ◌*◌}
use spanreed_netcode_proxy.Wire.Flatbuffers.{
  Flatbuffers, Table, Build, mutate, get_root, get_size_prefixed_root, field_or, length_field, ◌>>◌,
}

module _ {N : Type 0} (fb : Flatbuffers N) where
  open fb use {Builder}

  unfoldable pub get_root_as_server_game_state_message : fb.ByteBuffer → Table fb
  unfolding get_root
  get_root_as_server_game_state_message bb = get_root fb bb

  unfoldable pub get_size_prefixed_root_as_server_game_state_message : fb.ByteBuffer → Table fb
  unfolding get_size_prefixed_root
  get_size_prefixed_root_as_server_game_state_message bb = get_size_prefixed_root fb bb

  unfoldable pub dots : Table fb → ℕ → Option (Table fb)
  unfolding field_or
  dots t index =
      field_or fb none 4 (λ bb p. some (record { bb = bb; bb_pos = fb.vector bb p + index * 16 })) t

  unfoldable pub dots_length : Table fb → ℕ
  unfolding length_field
  dots_length t = length_field fb 4 t

  start_server_game_state_message : Build Builder (Unit {0})
  start_server_game_state_message = mutate (fb.start_object 1)

  add_dots : ℕ → Build Builder (Unit {0})
  add_dots v = mutate (fb.add_field_offset 0 v 0)

  unfoldable pub start_dots_vector : ℕ → Build Builder (Unit {0})
  start_dots_vector num_elems = mutate (fb.start_vector 16 num_elems 4)

  end_server_game_state_message : Build Builder ℕ
  end_server_game_state_message = fb.end_object

  unfoldable pub create_server_game_state_message : ℕ → Build Builder ℕ
  unfolding start_server_game_state_message add_dots end_server_game_state_message
  create_server_game_state_message dots_offset_ = do
    start_server_game_state_message
    add_dots dots_offset_
    end_server_game_state_message
