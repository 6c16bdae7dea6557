-- ===== src/Wire/ConnectDestinationVerdict/RoundTrip.antt =====
-- A verdict that `createConnectDestinationVerdict` of gen/spanreed-message/connect-destination-verdict.ts
-- builds, and what the accessors of the class read from it.
use spanreed_netcode_proxy.Prelude.{
  ℕ, ◌<◌, ◌^◌, ◌≡◌, refl, Bool, String, List, [], ◌∷◌, Option, arith,
}
use spanreed_netcode_proxy.Wire.Flatbuffers.{Flatbuffers, Bytes, get_root, create_bytes, ◌>>=◌}
use spanreed_netcode_proxy.Wire.Flatbuffers.Objects.{Object, table, Content}
use spanreed_netcode_proxy.Wire.Flatbuffers.Laws.{Laws}
use spanreed_netcode_proxy.Wire.Flatbuffers.Reading.{StandsOn}
use spanreed_netcode_proxy.Wire.Flatbuffers.Writing.{Makes, starts, ends}
use spanreed_netcode_proxy.Wire.Flatbuffers.Optional.{
  rows, lookup-rows, flag, number, adds_number, number_field, offset_of, text_of, bytes_of, Placed,
  adds_flag, adds_optional, flag_field, string_field_of, bytes_field_of,
}
use spanreed_netcode_proxy.Wire.Flatbuffers.Placing.{place, AreBytes, place-text_bytes}
use spanreed_netcode_proxy.Wire.ConnectDestinationVerdict.{
  create_connect_destination_verdict, finish_connect_destination_verdict_buffer,
  create_app_data_vector, get_root_as_connect_destination_verdict, client_id, accepted,
  error_reason, app_data_array,
}

module _ {N : Type 0} (fb : Flatbuffers N) where
  open fb use {Builder, new_builder}

  -- A verdict on a client, built and taken as bytes.
  unfoldable pub destination_verdict_message : ℕ → Bool → Option String → Option Bytes → Bytes
  destination_verdict_message id ok reason app_data =
      fb.as_uint8_array
        ((do
          p_reason ← place fb.create_string reason
          p_app_data ← place (create_app_data_vector fb) app_data
          p_verdict ← create_connect_destination_verdict fb id ok p_reason p_app_data
          finish_connect_destination_verdict_buffer fb p_verdict)
          (new_builder 64)).1

  abbrev pub verdict_rows :
      ℕ → Bool → Option (Object N) → Option (Object N) → List (Option (Content N))
  verdict_rows id ok x y = number id ∷ flag ok ∷ offset_of x ∷ offset_of y ∷ []

  module _ (laws : Laws fb) where
    open laws use {Idle}

    create_connect_destination_verdict-Makes :
        (b : Builder) (id : ℕ) (ok : Bool) (p q : ℕ) (x y : Option (Object N))
        → Idle b
        → id < 2 ^ 32
        → Placed fb laws b p x
        → Placed fb laws b q y
        → Makes fb laws b
            (create_connect_destination_verdict fb id ok p q b)
            (table (rows (verdict_rows id ok x y)))
    unfolding create_connect_destination_verdict
    create_connect_destination_verdict-Makes b id ok p q x y i lt hp hq = ends fb laws (
        adds_optional fb laws 3 q y (omega arith) hq (
          adds_optional fb laws 2 p x (omega arith) hp (
            adds_flag fb laws 1 ok (omega arith)
              (adds_number fb laws 0 id (omega arith) lt (starts fb laws 4 i)))))

    destination_verdict_message-StandsOn :
        (id : ℕ) (ok : Bool) (reason : Option String) (app_data : Option Bytes)
        → id < 2 ^ 32
        → AreBytes app_data
        → StandsOn fb laws
            (get_root_as_connect_destination_verdict fb
              (fb.new_byte_buffer (destination_verdict_message id ok reason app_data)))
            (rows (verdict_rows id ok (text_of reason) (bytes_of app_data)))
    unfolding destination_verdict_message get_root_as_connect_destination_verdict
        create_app_data_vector finish_connect_destination_verdict_buffer get_root
    destination_verdict_message-StandsOn id ok reason app_data lt h =
        let i = laws.new_builder-Idle 64 in
        let both = place-text_bytes fb laws reason app_data (new_builder 64) i h in
        let (p, b) = place fb.create_string reason (new_builder 64) in
        let (q, c) = place (create_bytes fb) app_data b in
        let m =
          create_connect_destination_verdict-Makes c id ok p q (text_of reason) (bytes_of app_data)
            both.idle lt both.first both.second in
        laws.finish-At _ _ _ m.idle m.made

    -- Each field of a verdict on a client reads back as it was given, and nothing as nothing, if the
    -- client's number has 32 bits.
    read-destination_verdict_message :
        (id : ℕ) (ok : Bool) (reason : Option String) (app_data : Option Bytes)
        → id < 2 ^ 32
        → AreBytes app_data
        → let t =
            get_root_as_connect_destination_verdict fb
              (fb.new_byte_buffer (destination_verdict_message id ok reason app_data)) in
          (client_id fb t ≡ id)
          × (accepted fb t ≡ ok)
          × (error_reason fb t ≡ reason)
          × (app_data_array fb t ≡ app_data)
    unfolding client_id accepted error_reason app_data_array
    read-destination_verdict_message id ok reason app_data lt h =
        let t =
          get_root_as_connect_destination_verdict fb
            (fb.new_byte_buffer (destination_verdict_message id ok reason app_data)) in
        let cs = verdict_rows id ok (text_of reason) (bytes_of app_data) in
        let here = destination_verdict_message-StandsOn id ok reason app_data lt h in
        (
          number_field fb laws 0 t (rows cs) here id (lookup-rows cs 0 (number id) refl),
          flag_field fb laws 1 t (rows cs) here ok (lookup-rows cs 1 (flag ok) refl),
          string_field_of fb laws 2 t (rows cs) here reason (lookup-rows cs 2 _ refl),
          bytes_field_of fb laws 3 t (rows cs) here app_data (lookup-rows cs 3 _ refl),
        )
