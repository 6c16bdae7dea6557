-- ===== src/Wire/ConnectClientMessage/Unpacked.antt =====
-- flatbuffers/generated/ts/spanreed-message/connect-client-message.ts: the class
-- `ConnectClientMessageT`, and `unpack` and `unpackTo` of `ConnectClientMessage`.
use spanreed_netcode_proxy.Prelude.{ℕ, ◌≡◌, refl, String, List, [], ◌∷◌, Option, some, arith}
use spanreed_netcode_proxy.Wire.Flatbuffers.{
  Flatbuffers, Bytes, Build, Table, get_root, length_field, ◌>>=◌,
}
use spanreed_netcode_proxy.Wire.Flatbuffers.Objects.{
  Object, bytes, table, Content, offset, AllBytes,
}
use spanreed_netcode_proxy.Wire.Flatbuffers.Laws.{Laws}
use spanreed_netcode_proxy.Wire.Flatbuffers.Reading.{StandsOn, length_field_bytes, byte_field_bytes}
use spanreed_netcode_proxy.Wire.Flatbuffers.Writing.{
  Makes, starts, ends, adds_offset, create_bytes-Makes,
}
use spanreed_netcode_proxy.Wire.Flatbuffers.Optional.{
  rows, lookup-rows, offset_of, text_of, Placed, Placed-kept, adds_optional, string_field_of,
}
use spanreed_netcode_proxy.Wire.Flatbuffers.Placing.{place, place-text}
use spanreed_netcode_proxy.Wire.ConnectClientMessage.{
  create_connect_client_message, finish_connect_client_message_buffer, create_app_data_vector,
  get_root_as_connect_client_message, connection_string, app_data, app_data_length,
}

-- `null` is nothing. A connection string that is a `Uint8Array` is left out.
pub record ConnectClientMessageT : Type 0 where
  pub connection_string : Option String
  pub app_data : List ℕ

module _ {N : Type 0} (fb : Flatbuffers N) where
  open fb use {Builder, new_builder}

  unfoldable pub unpack : Table fb → ConnectClientMessageT
  unpack t = record {
    connection_string = connection_string fb t;
    app_data = fb.create_scalar_list (app_data fb t) (app_data_length fb t);
  }

  -- The object that is passed is changed.
  unfoldable pub unpack_to : Table fb → ConnectClientMessageT → ConnectClientMessageT
  unpack_to t o = record o {
    connection_string = connection_string fb t;
    app_data = fb.create_scalar_list (app_data fb t) (app_data_length fb t);
  }

  unfoldable pub pack : ConnectClientMessageT → Build Builder ℕ
  pack o = do
    connection_string_ ← place fb.create_string o.connection_string
    app_data_ ← create_app_data_vector fb o.app_data
    create_connect_client_message fb connection_string_ app_data_

  -- The bytes of a packed object.
  unfoldable pub packed : ConnectClientMessageT → Bytes
  unfolding pack
  packed o =
      fb.as_uint8_array
        ((do p ← pack o; finish_connect_client_message_buffer fb p) (new_builder 64)).1

  abbrev packed_rows : Option (Object N) → Bytes → List (Option (Content N))
  packed_rows x l = offset_of x ∷ some (offset (bytes l)) ∷ []

  module _ (laws : Laws fb) where
    open laws use {Idle, Has}

    create_connect_client_message-Makes :
        (b : Builder) (p q : ℕ) (x : Option (Object N)) (l : Bytes)
        → Idle b
        → Placed fb laws b p x
        → Has b q (bytes l)
        → Makes fb laws b (create_connect_client_message fb p q b) (table (rows (packed_rows x l)))
    unfolding create_connect_client_message
    create_connect_client_message-Makes b p q x l i hp hq = ends fb laws (
        adds_offset fb laws 1 q (bytes l) (omega arith) hq
          (adds_optional fb laws 0 p x (omega arith) hp (starts fb laws 2 i)))

    packed-StandsOn :
        (o : ConnectClientMessageT)
        → AllBytes o.app_data
        → StandsOn fb laws
            (get_root_as_connect_client_message fb (fb.new_byte_buffer (packed o)))
            (rows (packed_rows (text_of o.connection_string) o.app_data))
    unfolding packed get_root_as_connect_client_message create_app_data_vector
        finish_connect_client_message_buffer get_root
    packed-StandsOn o h =
        let x = text_of o.connection_string in
        let m =
          place-text fb laws o.connection_string (new_builder 64) (laws.new_builder-Idle 64) in
        let (p, b) = place fb.create_string o.connection_string (new_builder 64) in
        let k = create_bytes-Makes fb laws o.app_data b m.idle h in
        let (q, c) = create_app_data_vector fb o.app_data b in
        let r =
          create_connect_client_message-Makes c p q x o.app_data k.idle
            (Placed-kept fb laws p x k.kept m.placed) k.made in
        laws.finish-At _ _ _ r.idle r.made

    -- Over a runtime that keeps its documented laws: what was packed unpacks as it was, if its data
    -- are bytes, into a new object and into any that is passed.
    pub unpack-packed :
        (o old : ConnectClientMessageT)
        → AllBytes o.app_data
        → let t = get_root_as_connect_client_message fb (fb.new_byte_buffer (packed o)) in
          (unpack t ≡ o) × (unpack_to t old ≡ o)
    unfolding unpack unpack_to connection_string app_data app_data_length
    unpack-packed o old h =
        let t = get_root_as_connect_client_message fb (fb.new_byte_buffer (packed o)) in
        let l = o.app_data in
        let cs = packed_rows (text_of o.connection_string) l in
        let here = packed-StandsOn o h in
        let there = lookup-rows cs 1 (some (offset (bytes l))) refl in
        let name =
          string_field_of fb laws 0 t (rows cs) here o.connection_string
            (lookup-rows cs 0 _ refl) in
        let list : fb.create_scalar_list (app_data fb t) (length_field fb 6 t) ≡ l =
          rw (length_field_bytes fb laws 1 t (rows cs) here l there) (
            laws.create_scalar_list_lem (app_data fb t) l
              (byte_field_bytes fb laws 1 t (rows cs) here l there)) in
        (rw (name, list) refl, rw (name, list) refl)
