-- ===== src/Wire/ConnectClientVerdict/RoundTrip.antt =====
-- A verdict that `createConnectClientVerdict` of gen/spanreed-message/connect-client-verdict.ts
-- builds, and what the accessors of the class read from it.
use spanreed_netcode_proxy.Prelude.{ℕ, ◌≡◌, refl, Bool, String, List, [], ◌∷◌, Option, arith}
use spanreed_netcode_proxy.Wire.Flatbuffers.{Flatbuffers, Bytes, get_root, create_bytes, ◌>>=◌}
use spanreed_netcode_proxy.Wire.Flatbuffers.Objects.{Object, table, Content}
use spanreed_netcode_proxy.Wire.Flatbuffers.Laws.{Laws}
use spanreed_netcode_proxy.Wire.Flatbuffers.Reading.{StandsOn}
use spanreed_netcode_proxy.Wire.Flatbuffers.Writing.{Makes, starts, ends}
use spanreed_netcode_proxy.Wire.Flatbuffers.Optional.{
  rows, lookup-rows, flag, offset_of, text_of, bytes_of, Placed, adds_flag, adds_optional,
  flag_field, string_field_of, bytes_field_of,
}
use spanreed_netcode_proxy.Wire.Flatbuffers.Placing.{place, AreBytes, place-text_bytes}
use spanreed_netcode_proxy.Wire.ConnectClientVerdict.{
  create_connect_client_verdict, finish_connect_client_verdict_buffer, create_app_data_vector,
  get_root_as_connect_client_verdict, accepted, error_reason, app_data_array,
}

module _ {N : Type 0} (fb : Flatbuffers N) where
  open fb use {Builder, new_builder}

  -- What the proxy does to answer: it builds a verdict and takes its bytes.
  unfoldable pub verdict_message : Bool → Option String → Option Bytes → Bytes
  verdict_message ok reason app_data =
      fb.as_uint8_array
        ((do
          p_reason ← place fb.create_string reason
          p_app_data ← place (create_app_data_vector fb) app_data
          p_verdict ← create_connect_client_verdict fb ok p_reason p_app_data
          finish_connect_client_verdict_buffer fb p_verdict)
          (new_builder 64)).1

  abbrev pub verdict_rows : Bool → Option (Object N) → Option (Object N) → List (Option (Content N))
  verdict_rows ok x y = flag ok ∷ offset_of x ∷ offset_of y ∷ []

  module _ (laws : Laws fb) where
    open laws use {Idle}

    create_connect_client_verdict-Makes :
        (b : Builder) (ok : Bool) (p q : ℕ) (x y : Option (Object N))
        → Idle b
        → Placed fb laws b p x
        → Placed fb laws b q y
        → Makes fb laws b
            (create_connect_client_verdict fb ok p q b)
            (table (rows (verdict_rows ok x y)))
    unfolding create_connect_client_verdict
    create_connect_client_verdict-Makes b ok p q x y i hp hq = ends fb laws (
        adds_optional fb laws 2 q y (omega arith) hq (
          adds_optional fb laws 1 p x (omega arith) hp
            (adds_flag fb laws 0 ok (omega arith) (starts fb laws 3 i))))

    verdict_message-StandsOn :
        (ok : Bool) (reason : Option String) (app_data : Option Bytes)
        → AreBytes app_data
        → StandsOn fb laws
            (get_root_as_connect_client_verdict fb
              (fb.new_byte_buffer (verdict_message ok reason app_data)))
            (rows (verdict_rows ok (text_of reason) (bytes_of app_data)))
    unfolding verdict_message get_root_as_connect_client_verdict create_app_data_vector
        finish_connect_client_verdict_buffer get_root
    verdict_message-StandsOn ok reason app_data h =
        let i = laws.new_builder-Idle 64 in
        let both = place-text_bytes fb laws reason app_data (new_builder 64) i h in
        let (p, b) = place fb.create_string reason (new_builder 64) in
        let (q, c) = place (create_bytes fb) app_data b in
        let m =
          create_connect_client_verdict-Makes c ok p q (text_of reason) (bytes_of app_data)
            both.idle both.first both.second in
        laws.finish-At _ _ _ m.idle m.made

    -- Each field of a message that stands for a verdict reads as it was given, and nothing as
    -- nothing.
    pub read_verdict-StandsOn :
        (ok : Bool) (reason : Option String) (app_data : Option Bytes) (message : Bytes)
        → let t = get_root_as_connect_client_verdict fb (fb.new_byte_buffer message) in
          StandsOn fb laws t (rows (verdict_rows ok (text_of reason) (bytes_of app_data)))
          → (accepted fb t ≡ ok) × (error_reason fb t ≡ reason) × (app_data_array fb t ≡ app_data)
    unfolding accepted error_reason app_data_array
    read_verdict-StandsOn ok reason app_data message here =
        let t = get_root_as_connect_client_verdict fb (fb.new_byte_buffer message) in
        let cs = verdict_rows ok (text_of reason) (bytes_of app_data) in
        (
          flag_field fb laws 0 t (rows cs) here ok (lookup-rows cs 0 (flag ok) refl),
          string_field_of fb laws 1 t (rows cs) here reason (lookup-rows cs 1 _ refl),
          bytes_field_of fb laws 2 t (rows cs) here app_data (lookup-rows cs 2 _ refl),
        )

    -- Each field of a verdict reads back as it was given.
    pub read-verdict_message :
        (ok : Bool) (reason : Option String) (app_data : Option Bytes)
        → AreBytes app_data
        → let t =
            get_root_as_connect_client_verdict fb
              (fb.new_byte_buffer (verdict_message ok reason app_data)) in
          (accepted fb t ≡ ok) × (error_reason fb t ≡ reason) × (app_data_array fb t ≡ app_data)
    read-verdict_message ok reason app_data h =
        read_verdict-StandsOn ok reason app_data (verdict_message ok reason app_data)
          (verdict_message-StandsOn ok reason app_data h)
