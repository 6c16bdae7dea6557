-- ===== src/Wire/UserPingMessage.antt =====
-- gen/hello-spanreed/user-ping-message.ts: `class UserPingMessage`.
use spanreed_netcode_proxy.Prelude.{ℕ}
use spanreed_netcode_proxy.Wire.Flatbuffers.{
  Flatbuffers, Table, Build, mutate, get_root, get_size_prefixed_root, ◌>>◌,
}

module _ {N : Type 0} (fb : Flatbuffers N) where
  open fb use {Builder}

  unfoldable pub get_root_as_user_ping_message : fb.ByteBuffer → Table fb
  unfolding get_root
  get_root_as_user_ping_message bb = get_root fb bb

  unfoldable pub get_size_prefixed_root_as_user_ping_message : fb.ByteBuffer → Table fb
  unfolding get_size_prefixed_root
  get_size_prefixed_root_as_user_ping_message bb = get_size_prefixed_root fb bb

  start_user_ping_message : Build Builder (Unit {0})
  start_user_ping_message = mutate (fb.start_object 0)

  end_user_ping_message : Build Builder ℕ
  end_user_ping_message = fb.end_object

  unfoldable pub create_user_ping_message : Build Builder ℕ
  unfolding start_user_ping_message end_user_ping_message
  create_user_ping_message = do start_user_ping_message; end_user_ping_message
