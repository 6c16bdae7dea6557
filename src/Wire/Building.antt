-- ===== src/Wire/Building.antt =====
-- What the generated functions of examples/hello-spanreed/client/src/gen build for the client.
use spanreed_netcode_proxy.Prelude.{ℕ, ◌<◌, ◌==◌, String, if◌then◌else◌, arith}
use spanreed_netcode_proxy.Wire.Flatbuffers.{Flatbuffers, Bytes}
use spanreed_netcode_proxy.Wire.Flatbuffers.Objects.{
  text, bytes, table, Fields, nil, field, int8, float32, offset,
}
use spanreed_netcode_proxy.Wire.Flatbuffers.Laws.{Laws}
use spanreed_netcode_proxy.Wire.Flatbuffers.Writing.{
  Makes, starts, adds_int8, adds_float32, adds_offset, ends,
}
use spanreed_netcode_proxy.Wire.ClientMessage.{create_client_message}
use spanreed_netcode_proxy.Wire.ConnectClientMessage.{create_connect_client_message}
use spanreed_netcode_proxy.Wire.UserConnectMessage.{create_user_connect_message}
use spanreed_netcode_proxy.Wire.UserClickMessage.{create_user_click_message}
use spanreed_netcode_proxy.Wire.UserChatMessage.{create_user_chat_message}
use spanreed_netcode_proxy.Wire.UserPingMessage.{create_user_ping_message}

module _ {N : Type 0} where
  -- The tables of the messages.
  abbrev pub connect_request : String → Bytes → Fields N
  connect_request address app_data =
      field 1 (offset (bytes app_data)) (field 0 (offset (text address)) nil)

  abbrev pub envelope : ℕ → Fields N → Fields N
  envelope type fs =
      field 1 (offset (table fs)) (if type == 0 then nil else field 0 (int8 type) nil)

  abbrev pub one_text : String → Fields N
  one_text s = field 0 (offset (text s)) nil

module _ {N : Type 0} (fb : Flatbuffers N) (laws : Laws fb) where
  open fb use {Builder}
  open laws use {Idle, Has}

  -- A coordinate is stored as a `float32`, and not at all if it is the default.
  abbrev pub stored : ℕ → N → Fields N → Fields N
  stored slot v fs = if laws.is_zero v then fs else field slot (float32 (laws.round v)) fs

  abbrev pub click_fields : N → N → Fields N
  click_fields x y = stored 1 y (stored 0 x nil)

  module _ (b : Builder) (i : Idle b) where
    pub create_user_connect_message-Makes :
        (p : ℕ) (s : String)
        → Has b p (text s)
        → Makes fb laws b (create_user_connect_message fb p b) (table (one_text s))
    unfolding create_user_connect_message
    create_user_connect_message-Makes p s h =
        ends fb laws (adds_offset fb laws 0 p (text s) (omega arith) h (starts fb laws 1 i))

    pub create_user_chat_message-Makes :
        (p : ℕ) (s : String)
        → Has b p (text s)
        → Makes fb laws b (create_user_chat_message fb p b) (table (one_text s))
    unfolding create_user_chat_message
    create_user_chat_message-Makes p s h =
        ends fb laws (adds_offset fb laws 0 p (text s) (omega arith) h (starts fb laws 1 i))

    pub create_user_ping_message-Makes : Makes fb laws b (create_user_ping_message fb b) (table nil)
    unfolding create_user_ping_message
    create_user_ping_message-Makes = ends fb laws (starts fb laws 0 i)

    pub create_user_click_message-Makes :
        (x y : N) → Makes fb laws b (create_user_click_message fb x y b) (table (click_fields x y))
    unfolding create_user_click_message
    create_user_click_message-Makes x y = ends fb laws (
        adds_float32 fb laws 1 y (omega arith)
          (adds_float32 fb laws 0 x (omega arith) (starts fb laws 2 i)))

    pub create_client_message-Makes :
        (type p : ℕ) (fs : Fields N)
        → type < 128
        → Has b p (table fs)
        → Makes fb laws b (create_client_message fb type p b) (table (envelope type fs))
    unfolding create_client_message
    create_client_message-Makes type p fs fits h = ends fb laws (
        adds_offset fb laws 1 p (table fs) (omega arith) h
          (adds_int8 fb laws 0 type 0 (omega arith) fits (starts fb laws 2 i)))

    pub create_connect_client_message-Makes :
        (p q : ℕ) (address : String) (app_data : Bytes)
        → Has b p (text address)
        → Has b q (bytes app_data)
        → Makes fb laws b
            (create_connect_client_message fb p q b)
            (table (connect_request address app_data))
    unfolding create_connect_client_message
    create_connect_client_message-Makes p q address app_data h k = ends fb laws (
        adds_offset fb laws 1 q (bytes app_data) (omega arith) k
          (adds_offset fb laws 0 p (text address) (omega arith) h (starts fb laws 2 i)))
