-- ===== src/Wire/DestinationMessage/RoundTrip.antt =====
-- What a destination tells the proxy: messages built and read by the generated classes of
-- gen/spanreed-message/destination-message.ts and of the three tables that it can hold.
use spanreed_netcode_proxy.Prelude.{
  ℕ, ◌<◌, ◌^◌, ◌==◌, ◌≡◌, refl, Bool, String, false, List, [], ◌∷◌, Option, none, some, arith,
}
use spanreed_netcode_proxy.Wire.Flatbuffers.{
  Flatbuffers, Bytes, Build, Table, get_root, create_bytes, ◌>>=◌,
}
use spanreed_netcode_proxy.Wire.Flatbuffers.Objects.{Object, table, Fields, Content, int8, offset}
use spanreed_netcode_proxy.Wire.Flatbuffers.Laws.{Laws}
use spanreed_netcode_proxy.Wire.Flatbuffers.Reading.{StandsOn, int8_field, union_field_table}
use spanreed_netcode_proxy.Wire.Flatbuffers.Writing.{Makes, starts, ends, adds_offset}
use spanreed_netcode_proxy.Wire.Flatbuffers.Optional.{
  rows, lookup-rows, number, offset_of, bytes_of, Placed, adds_number, adds_flag, text_of, flag,
  flag_field, string_field_of, adds_kind, adds_optional, number_field, bytes_field_of,
}
use spanreed_netcode_proxy.Wire.Flatbuffers.Placing.{place, AreBytes, place-bytes, place-text}
use spanreed_netcode_proxy.Wire.InnerMsg.{
  InnerMsg, none_, proxy_message, connection_verdict, close_connection, inner_msg_value,
  union_to_inner_msg,
}
use spanreed_netcode_proxy.Wire.ProxyMessage
use spanreed_netcode_proxy.Wire.ConnectionVerdict
use spanreed_netcode_proxy.Wire.CloseConnection
use spanreed_netcode_proxy.Wire.DestinationMessage.{
  create_destination_message, finish_destination_message_buffer, create_app_data_vector,
  get_root_as_destination_message, msg_type, msg, app_data_array,
}

-- A message for a client, the verdict on a client, or the end of its connection.
pub data Report : Type 0 where
  message : (client_id : ℕ) → Report
  verdict : (client_id : ℕ) (accepted : Bool) → Report
  close : (client_id : ℕ) (reason : Option String) → Report

abbrev pub client : Report → ℕ
client (message id) = id
client (verdict id ok) = id
client (close id reason) = id

abbrev pub kind : Report → InnerMsg
kind (message id) = proxy_message
kind (verdict id ok) = connection_verdict
kind (close id reason) = close_connection

abbrev pub tag : Report → ℕ
tag m = inner_msg_value (kind m)

module _ {N : Type 0} (fb : Flatbuffers N) where
  open fb use {Builder, new_builder}

  create_inner : Report → Build Builder ℕ
  create_inner (message id) = ProxyMessage.create_proxy_message fb id
  create_inner (verdict id ok) = ConnectionVerdict.create_connection_verdict fb id ok
  create_inner (close id reason) = do
    p_reason ← place fb.create_string reason
    CloseConnection.create_close_connection fb id p_reason

  unfoldable pub write_report : Report → Option Bytes → Bytes
  unfolding create_inner
  write_report m app_data =
      fb.as_uint8_array
        ((do
          p_inner ← create_inner m
          p_app_data ← place (create_app_data_vector fb) app_data
          p_message ← create_destination_message fb (tag m) p_inner p_app_data
          finish_destination_message_buffer fb p_message)
          (new_builder 64)).1

  read_inner : Option (Table fb) → InnerMsg → Option Report
  read_inner none c = none
  read_inner (some u) none_ = none
  read_inner (some u) proxy_message = some (message (ProxyMessage.client_id fb u))
  read_inner (some u) connection_verdict =
      some (verdict (ConnectionVerdict.client_id fb u) (ConnectionVerdict.accepted fb u))
  read_inner (some u) close_connection =
      some (close (CloseConnection.client_id fb u) (CloseConnection.reason fb u))

  unfoldable pub read_report : Bytes → Option Report × Option Bytes
  unfolding read_inner
  read_report bytes =
      let t = get_root_as_destination_message fb (fb.new_byte_buffer bytes) in
      (union_to_inner_msg (msg_type fb t) (read_inner (msg fb t)), app_data_array fb t)

  abbrev pub inner_rows : Report → List (Option (Content N))
  inner_rows (message id) = number id ∷ []
  inner_rows (verdict id ok) = number id ∷ flag ok ∷ []
  inner_rows (close id reason) = number id ∷ offset_of (text_of reason) ∷ []

  abbrev pub message_rows : ℕ → Fields N → Option (Object N) → List (Option (Content N))
  message_rows type fs y = some (int8 type) ∷ some (offset (table fs)) ∷ offset_of y ∷ []

  module _ (laws : Laws fb) where
    open laws use {Idle, Has}

    create_inner-Makes :
        (m : Report) (b : Builder)
        → Idle b
        → client m < 2 ^ 32
        → Makes fb laws b (create_inner m b) (table (rows (inner_rows m)))
    unfolding create_inner ProxyMessage.create_proxy_message
        ConnectionVerdict.create_connection_verdict CloseConnection.create_close_connection
    create_inner-Makes (message id) b i lt =
        ends fb laws (adds_number fb laws 0 id (omega arith) lt (starts fb laws 1 i))
    create_inner-Makes (verdict id ok) b i lt = ends fb laws (
        adds_flag fb laws 1 ok (omega arith)
          (adds_number fb laws 0 id (omega arith) lt (starts fb laws 2 i)))
    create_inner-Makes (close id reason) b i lt =
        let m = place-text fb laws reason b i in
        let (p, c) = place fb.create_string reason b in
        let k = ends fb laws (
          adds_optional fb laws 1 p (text_of reason) (omega arith) m.placed
            (adds_number fb laws 0 id (omega arith) lt (starts fb laws 2 m.idle))) in
        record { idle = k.idle; made = k.made; kept = λ o x h. k.kept o x (m.kept o x h) }

    create_destination_message-Makes :
        (b : Builder) (type p q : ℕ) (fs : Fields N) (y : Option (Object N))
        → Idle b
        → type < 128
        → (type == 0) ≡ false
        → Has b p (table fs)
        → Placed fb laws b q y
        → Makes fb laws b
            (create_destination_message fb type p q b)
            (table (rows (message_rows type fs y)))
    unfolding create_destination_message
    create_destination_message-Makes b type p q fs y i lt there hp hq = ends fb laws (
        adds_optional fb laws 2 q y (omega arith) hq (
          adds_offset fb laws 1 p (table fs) (omega arith) hp
            (adds_kind fb laws 0 type (omega arith) lt there (starts fb laws 3 i))))

    tag-bounds : (m : Report) → (tag m < 128) × ((tag m == 0) ≡ false)
    tag-bounds (message id) = (omega arith, refl)
    tag-bounds (verdict id ok) = (omega arith, refl)
    tag-bounds (close id reason) = (omega arith, refl)

    pub write_report-StandsOn :
        (m : Report) (app_data : Option Bytes)
        → client m < 2 ^ 32
        → AreBytes app_data
        → StandsOn fb laws
            (get_root_as_destination_message fb (fb.new_byte_buffer (write_report m app_data)))
            (rows (message_rows (tag m) (rows (inner_rows m)) (bytes_of app_data)))
    unfolding write_report get_root_as_destination_message create_app_data_vector
        finish_destination_message_buffer get_root
    write_report-StandsOn m app_data lt h =
        let i = create_inner-Makes m (new_builder 64) (laws.new_builder-Idle 64) lt in
        let (p, b) = create_inner m (new_builder 64) in
        let k = place-bytes fb laws app_data b i.idle h in
        let (q, c) = place (create_bytes fb) app_data b in
        let (small, there) = tag-bounds m in
        let r =
          create_destination_message-Makes c (tag m) p q (rows (inner_rows m)) (bytes_of app_data)
            k.idle small there (k.kept p _ i.made) k.placed in
        laws.finish-At _ _ _ r.idle r.made

    read_inner-eq-some :
        (m : Report) (u : Table fb)
        → StandsOn fb laws u (rows (inner_rows m))
        → union_to_inner_msg (tag m) (read_inner (some u)) ≡ some m
    unfolding read_inner union_to_inner_msg ProxyMessage.client_id ConnectionVerdict.client_id
        ConnectionVerdict.accepted CloseConnection.client_id CloseConnection.reason
    read_inner-eq-some (message id) u here =
        let cs = inner_rows (message id) in
        rw (number_field fb laws 0 u (rows cs) here id (lookup-rows cs 0 (number id) refl)) refl
    read_inner-eq-some (verdict id ok) u here =
        let cs = inner_rows (verdict id ok) in
        rw
          (
            number_field fb laws 0 u (rows cs) here id (lookup-rows cs 0 (number id) refl),
            flag_field fb laws 1 u (rows cs) here ok (lookup-rows cs 1 (flag ok) refl),
          )
          refl
    read_inner-eq-some (close id reason) u here =
        let cs = inner_rows (close id reason) in
        rw
          (
            number_field fb laws 0 u (rows cs) here id (lookup-rows cs 0 (number id) refl),
            string_field_of fb laws 1 u (rows cs) here reason (lookup-rows cs 1 _ refl),
          )
          refl

    -- Over a runtime that keeps its documented laws: what a destination tells the proxy is read as
    -- it was written: a message, a verdict or a close, of which client, with which verdict or
    -- reason, and with which data, if the client's number has 32 bits and the data are bytes.
    pub read_report-write_report :
        (m : Report) (app_data : Option Bytes)
        → client m < 2 ^ 32
        → AreBytes app_data
        → read_report (write_report m app_data) ≡ (some m, app_data)
    unfolding read_report msg_type msg app_data_array
    read_report-write_report m app_data lt h =
        let t = get_root_as_destination_message fb (fb.new_byte_buffer (write_report m app_data)) in
        let fs = rows (inner_rows m) in
        let cs = message_rows (tag m) fs (bytes_of app_data) in
        let here = write_report-StandsOn m app_data lt h in
        let (u, e, inner) =
          union_field_table fb laws 1 t (rows cs) here fs (lookup-rows cs 1 _ refl) in
        rw
          (
            int8_field fb laws 0 t (rows cs) here 0 (tag m) (lookup-rows cs 0 _ refl),
            e,
            read_inner-eq-some m u inner,
            bytes_field_of fb laws 2 t (rows cs) here app_data (lookup-rows cs 2 _ refl),
          )
          refl
