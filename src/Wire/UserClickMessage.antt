-- ===== src/Wire/UserClickMessage.antt =====
-- gen/hello-spanreed/user-click-message.ts: `class UserClickMessage`.
use spanreed_netcode_proxy.Prelude.{ℕ}
use spanreed_netcode_proxy.Wire.Flatbuffers.{
  Flatbuffers, Table, Build, mutate, get_root, get_size_prefixed_root, field_or, ◌>>◌,
}

module _ {N : Type 0} (fb : Flatbuffers N) where
  open fb use {Builder}

  unfoldable pub get_root_as_user_click_message : fb.ByteBuffer → Table fb
  unfolding get_root
  get_root_as_user_click_message bb = get_root fb bb

  unfoldable pub get_size_prefixed_root_as_user_click_message : fb.ByteBuffer → Table fb
  unfolding get_size_prefixed_root
  get_size_prefixed_root_as_user_click_message bb = get_size_prefixed_root fb bb

  unfoldable pub x : N → Table fb → N
  unfolding field_or
  x zero_ t = field_or fb zero_ 4 fb.read_float32 t

  unfoldable pub y : N → Table fb → N
  unfolding field_or
  y zero_ t = field_or fb zero_ 6 fb.read_float32 t

  start_user_click_message : Build Builder (Unit {0})
  start_user_click_message = mutate (fb.start_object 2)

  add_x : N → Build Builder (Unit {0})
  add_x v = mutate (fb.add_field_float32 0 v 0)

  add_y : N → Build Builder (Unit {0})
  add_y v = mutate (fb.add_field_float32 1 v 0)

  end_user_click_message : Build Builder ℕ
  end_user_click_message = fb.end_object

  unfoldable pub create_user_click_message : N → N → Build Builder ℕ
  unfolding start_user_click_message add_x add_y end_user_click_message
  create_user_click_message x_ y_ = do
    start_user_click_message
    add_x x_
    add_y y_
    end_user_click_message
