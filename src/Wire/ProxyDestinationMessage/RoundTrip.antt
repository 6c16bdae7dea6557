-- ===== src/Wire/ProxyDestinationMessage/RoundTrip.antt =====
-- What the proxy tells a destination: messages built and read by the generated classes of
-- gen/spanreed-message/proxy-destination-message.ts and of the three tables that it can hold.
use spanreed_netcode_proxy.Prelude.{
  ℕ, ◌<◌, ◌^◌, ◌==◌, ◌≡◌, refl, ap, false, List, [], ◌∷◌, Option, none, some, arith,
}
use spanreed_netcode_proxy.Wire.Flatbuffers.{
  Flatbuffers, Bytes, Build, Table, get_root, field_or, create_bytes, ◌>>=◌,
}
use spanreed_netcode_proxy.Wire.Flatbuffers.Objects.{Object, table, Fields, Content, int8, offset}
use spanreed_netcode_proxy.Wire.Flatbuffers.Laws.{Laws}
use spanreed_netcode_proxy.Wire.Flatbuffers.Reading.{StandsOn, int8_field, union_field_table}
use spanreed_netcode_proxy.Wire.Flatbuffers.Writing.{Makes, starts, ends, adds_offset}
use spanreed_netcode_proxy.Wire.Flatbuffers.Optional.{
  rows, lookup-rows, number, offset_of, bytes_of, Placed, adds_number, adds_kind, adds_optional,
  number_field, bytes_field_of,
}
use spanreed_netcode_proxy.Wire.Flatbuffers.Placing.{place, AreBytes, place-bytes}
use spanreed_netcode_proxy.Wire.ProxyDestInnerMsg.{
  ProxyDestInnerMsg, none_, proxy_dest_connection_request, proxy_dest_client_message,
  proxy_dest_close_connection, proxy_dest_inner_msg_value, union_to_proxy_dest_inner_msg,
}
use spanreed_netcode_proxy.Wire.ProxyDestConnectionRequest
use spanreed_netcode_proxy.Wire.ProxyDestClientMessage
use spanreed_netcode_proxy.Wire.ProxyDestCloseConnection
use spanreed_netcode_proxy.Wire.ProxyDestinationMessage.{
  create_proxy_destination_message, finish_proxy_destination_message_buffer, create_app_data_vector,
  get_root_as_proxy_destination_message, inner_message_type, inner_message, app_data_array,
}

-- A client asks to connect, has sent a message, or is gone.
pub data Notice : Type 0 where
  connection_request client_message close_connection : (client_id : ℕ) → Notice

abbrev pub client : Notice → ℕ
client (connection_request id) = id
client (client_message id) = id
client (close_connection id) = id

abbrev pub kind : Notice → ProxyDestInnerMsg
kind (connection_request id) = proxy_dest_connection_request
kind (client_message id) = proxy_dest_client_message
kind (close_connection id) = proxy_dest_close_connection

abbrev pub tag : Notice → ℕ
tag m = proxy_dest_inner_msg_value (kind m)

module _ {N : Type 0} (fb : Flatbuffers N) where
  open fb use {Builder, new_builder}

  pub create_inner : Notice → Build Builder ℕ
  create_inner (connection_request id) =
      ProxyDestConnectionRequest.create_proxy_dest_connection_request fb id
  create_inner (client_message id) = ProxyDestClientMessage.create_proxy_dest_client_message fb id
  create_inner (close_connection id) =
      ProxyDestCloseConnection.create_proxy_dest_close_connection fb id

  unfoldable pub write_notice : Notice → Option Bytes → Bytes
  unfolding create_inner
  write_notice m app_data =
      fb.as_uint8_array
        ((do
          p_inner ← create_inner m
          p_app_data ← place (create_app_data_vector fb) app_data
          p_message ← create_proxy_destination_message fb (tag m) p_inner p_app_data
          finish_proxy_destination_message_buffer fb p_message)
          (new_builder 64)).1

  read_inner : Option (Table fb) → ProxyDestInnerMsg → Option Notice
  read_inner none c = none
  read_inner (some u) none_ = none
  read_inner (some u) proxy_dest_connection_request =
      some (connection_request (ProxyDestConnectionRequest.client_id fb u))
  read_inner (some u) proxy_dest_client_message =
      some (client_message (ProxyDestClientMessage.client_id fb u))
  read_inner (some u) proxy_dest_close_connection =
      some (close_connection (ProxyDestCloseConnection.client_id fb u))

  unfoldable pub read_notice : Bytes → Option Notice × Option Bytes
  unfolding read_inner
  read_notice message =
      let t = get_root_as_proxy_destination_message fb (fb.new_byte_buffer message) in
      (
        union_to_proxy_dest_inner_msg (inner_message_type fb t) (read_inner (inner_message fb t)),
        app_data_array fb t,
      )

  abbrev pub inner_rows : Notice → List (Option (Content N))
  inner_rows m = number (client m) ∷ []

  abbrev pub message_rows : ℕ → Fields N → Option (Object N) → List (Option (Content N))
  message_rows type fs y = some (int8 type) ∷ some (offset (table fs)) ∷ offset_of y ∷ []

  module _ (laws : Laws fb) where
    open laws use {Idle, Has}

    pub create_inner-Makes :
        (m : Notice) (b : Builder)
        → Idle b
        → client m < 2 ^ 32
        → Makes fb laws b (create_inner m b) (table (rows (inner_rows m)))
    unfolding create_inner ProxyDestConnectionRequest.create_proxy_dest_connection_request
        ProxyDestClientMessage.create_proxy_dest_client_message
        ProxyDestCloseConnection.create_proxy_dest_close_connection
    create_inner-Makes (connection_request id) b i lt =
        ends fb laws (adds_number fb laws 0 id (omega arith) lt (starts fb laws 1 i))
    create_inner-Makes (client_message id) b i lt =
        ends fb laws (adds_number fb laws 0 id (omega arith) lt (starts fb laws 1 i))
    create_inner-Makes (close_connection id) b i lt =
        ends fb laws (adds_number fb laws 0 id (omega arith) lt (starts fb laws 1 i))

    create_proxy_destination_message-Makes :
        (b : Builder) (type p q : ℕ) (fs : Fields N) (y : Option (Object N))
        → Idle b
        → type < 128
        → (type == 0) ≡ false
        → Has b p (table fs)
        → Placed fb laws b q y
        → Makes fb laws b
            (create_proxy_destination_message fb type p q b)
            (table (rows (message_rows type fs y)))
    unfolding create_proxy_destination_message
    create_proxy_destination_message-Makes b type p q fs y i lt there hp hq = ends fb laws (
        adds_optional fb laws 2 q y (omega arith) hq (
          adds_offset fb laws 1 p (table fs) (omega arith) hp
            (adds_kind fb laws 0 type (omega arith) lt there (starts fb laws 3 i))))

    pub tag-bounds : (m : Notice) → (tag m < 128) × ((tag m == 0) ≡ false)
    tag-bounds (connection_request id) = (omega arith, refl)
    tag-bounds (client_message id) = (omega arith, refl)
    tag-bounds (close_connection id) = (omega arith, refl)

    write_notice-StandsOn :
        (m : Notice) (app_data : Option Bytes)
        → client m < 2 ^ 32
        → AreBytes app_data
        → StandsOn fb laws
            (get_root_as_proxy_destination_message fb
              (fb.new_byte_buffer (write_notice m app_data)))
            (rows (message_rows (tag m) (rows (inner_rows m)) (bytes_of app_data)))
    unfolding write_notice get_root_as_proxy_destination_message create_app_data_vector
        finish_proxy_destination_message_buffer get_root
    write_notice-StandsOn m app_data lt h =
        let i = create_inner-Makes m (new_builder 64) (laws.new_builder-Idle 64) lt in
        let (p, b) = create_inner m (new_builder 64) in
        let k = place-bytes fb laws app_data b i.idle h in
        let (q, c) = place (create_bytes fb) app_data b in
        let (small, there) = tag-bounds m in
        let r =
          create_proxy_destination_message-Makes c (tag m) p q (rows (inner_rows m))
            (bytes_of app_data) k.idle small there (k.kept p _ i.made) k.placed in
        laws.finish-At _ _ _ r.idle r.made

    client_id_read :
        (id : ℕ) (u : Table fb)
        → StandsOn fb laws u (rows (number id ∷ []))
        → field_or fb 0 4 fb.read_uint32 u ≡ id
    client_id_read id u here =
        let cs = number {N = N} id ∷ [] in
        number_field fb laws 0 u (rows cs) here id (lookup-rows cs 0 (number id) refl)

    read_inner-eq-some :
        (m : Notice) (u : Table fb)
        → StandsOn fb laws u (rows (inner_rows m))
        → union_to_proxy_dest_inner_msg (tag m) (read_inner (some u)) ≡ some m
    unfolding read_inner union_to_proxy_dest_inner_msg ProxyDestConnectionRequest.client_id
        ProxyDestClientMessage.client_id ProxyDestCloseConnection.client_id
    read_inner-eq-some (connection_request id) u here =
        ap (λ n. some (connection_request n)) (client_id_read id u here)
    read_inner-eq-some (client_message id) u here =
        ap (λ n. some (client_message n)) (client_id_read id u here)
    read_inner-eq-some (close_connection id) u here =
        ap (λ n. some (close_connection n)) (client_id_read id u here)

    -- A message that stands for a notice with data reads as these.
    pub read_notice-StandsOn :
        (m : Notice) (app_data : Option Bytes) (message : Bytes)
        → StandsOn fb laws
            (get_root_as_proxy_destination_message fb (fb.new_byte_buffer message))
            (rows (message_rows (tag m) (rows (inner_rows m)) (bytes_of app_data)))
        → read_notice message ≡ (some m, app_data)
    unfolding read_notice inner_message_type inner_message app_data_array
    read_notice-StandsOn m app_data message here =
        let t = get_root_as_proxy_destination_message fb (fb.new_byte_buffer message) in
        let fs = rows (inner_rows m) in
        let cs = message_rows (tag m) fs (bytes_of app_data) in
        let (u, e, inner) =
          union_field_table fb laws 1 t (rows cs) here fs (lookup-rows cs 1 _ refl) in
        rw
          (
            int8_field fb laws 0 t (rows cs) here 0 (tag m) (lookup-rows cs 0 _ refl),
            e,
            read_inner-eq-some m u inner,
            bytes_field_of fb laws 2 t (rows cs) here app_data (lookup-rows cs 2 _ refl),
          )
          refl

    -- Over a runtime that keeps its documented laws: what the proxy tells a destination is read as
    -- it was written: which of the three notices, of which client, with which data, if the client's
    -- number has 32 bits and the data are bytes.
    pub read_notice-write_notice :
        (m : Notice) (app_data : Option Bytes)
        → client m < 2 ^ 32
        → AreBytes app_data
        → read_notice (write_notice m app_data) ≡ (some m, app_data)
    read_notice-write_notice m app_data lt h =
        read_notice-StandsOn m app_data (write_notice m app_data)
          (write_notice-StandsOn m app_data lt h)
