-- ===== src/Tests/Starting.antt =====
-- An instance of the theorem on the start's configuration in crates/client-core/src/core.rs.
use singbox_sub_me.Prelude.{◌≡◌, refl, some, ok, [], ◌∷◌}
use singbox_sub_me.Json.{Json, text, array, object, nil, Fields, end, field}
use singbox_sub_me.Merge.Paths.{at_path}
use singbox_sub_me.Override.{ProfileOverride, hand_written}
use singbox_sub_me.Runtime.{Codec, tun, applied, inbounds_for, runtime_config}
use singbox_sub_me.Runtime.Reserved.{IsReserved, runtime_config-IsReserved}

-- Texts that are the values they print.
abbrev plain_codec : Codec
plain_codec = record {
  Text = Json;
  from_str = λ j. some j;
  to_string = λ j. j;
  to_string_pretty = λ j. j;
  from_str-to_string = λ j. refl;
  from_str-to_string_pretty = λ j. refl;
}

abbrev subscription : Fields
subscription = field "route" (object (field "final" (text "proxy") end)) end

-- An override that would move the controller and the inbounds.
abbrev meddling : ProfileOverride
meddling = hand_written (
    object (
      field "experimental"
        (object
          (field "clash_api" (object (field "external_controller" (text "0.0.0.0:1") end)) end))
        (field "inbounds" (array nil) end)))

runtime_config-IsReserved_example :
    (out : Json) × (runtime_config plain_codec
        (object subscription)
        tun
        "7890"
        "127.0.0.1:9090"
        "secret"
        (some meddling)
      ≡ ok (out, (applied (some meddling) (object subscription)).1))
    × (config : Json) × (some out ≡ some config)
    × IsReserved "127.0.0.1:9090" "secret" config
    × (at_path ("inbounds" ∷ []) config
        ≡ some (inbounds_for tun "7890" (applied (some meddling) (object subscription)).0))
runtime_config-IsReserved_example =
    runtime_config-IsReserved plain_codec (object subscription) tun "7890" "127.0.0.1:9090" "secret"
      (some meddling) subscription refl (refl, tt)
