-- ===== src/Runtime.antt =====
-- crates/client-core/src/core.rs: the configuration that a start of the core runs with, built from
-- the subscription, the user's override and the fields that the client reserves.
mod Places
mod Steps
pub mod Reserved
use singbox_sub_me.Prelude.{
  ◌≡◌, String, Bool, true, false, Option, none, some, List, [], ◌∷◌, str_eq, if◌then◌else◌, Result,
  ok, err, ◌>>=◌, ◌>>◌, reject_if, not,
}
use singbox_sub_me.Json.{
  Json, null, bool, number, text, array, object, Items, nil, cons, Fields, end, field, get, member,
  as_str, is_object, insert, index_mut,
}
use singbox_sub_me.Override.{ProfileOverride, apply}

pub data TrafficMode : Type 0 where
  system_proxy tun : TrafficMode

pub data RuntimeError : Type 0 where
  not_json top_level_not_object : RuntimeError
  -- An index expression that the source would panic on.
  panicked : RuntimeError

-- `serde_json` over its own texts; the law is its round trip.
pub record Codec : Type 1 where
  pub Text : Type 0
  pub from_str : Text → Option Json
  pub to_string : Json → Text
  pub to_string_pretty : Json → Text
  pub from_str-to_string : (j : Json) → from_str (to_string j) ≡ some j
  pub from_str-to_string_pretty : (j : Json) → from_str (to_string_pretty j) ≡ some j

-- `value[k₁]…[kₙ] = new`
pub set_at : List String → Json → Json → Option Json
set_at [] new j = some new
set_at (k ∷ ks) new j = index_mut k (set_at ks new) j

abbrev or_panic {ℓ} : {A : Type ℓ} → Option A → Result RuntimeError A
or_panic none = err panicked
or_panic (some a) = ok a

-- The literal of `mixed_port` is passed in.
mixed_inbounds : String → Json
mixed_inbounds port = array (
    cons
      (object (
        field "type" (text "mixed") (
          field "tag" (text "mixed-in")
            (field "listen" (text "127.0.0.1") (field "listen_port" (number port) end)))))
      nil)

default_tun : Fields
default_tun = field "type" (text "tun") (
    field "tag" (text "tun-in") (
      field "address"
        (array (cons (text "172.19.0.1/30") (cons (text "fdfe:dcba:9876::1/126") nil)))
        (field "mtu" (number "9000") (
          field "auto_route" (bool true)
            (field "strict_route" (bool true) (field "stack" (text "mixed") end))))))

abbrev is_text : String → Option Json → Bool
is_text s (some (text t)) = str_eq t s
is_text s _ = false

-- The first inbound of the profile whose type is `tun`.
find_tun : Items → Option Fields
find_tun nil = none
find_tun (cons (object fs) rest) = if is_text "tun" (get "type" fs) then some fs else find_tun rest
find_tun (cons _ rest) = find_tun rest

profile_tun : Option Json → Option Fields
unfolding find_tun
profile_tun (some (array inbounds)) = find_tun inbounds
profile_tun _ = none

insert_all : Fields → Fields → Fields
insert_all fs end = fs
insert_all fs (field k v rest) = insert_all (insert k v fs) rest

tun_inbound : Option Fields → Fields
unfolding insert_all default_tun
tun_inbound none = default_tun
tun_inbound (some profile) =
    insert "type" (text "tun") (insert "tag" (text "tun-in") (insert_all default_tun profile))

pub inbounds_for : TrafficMode → String → Json → Json
unfolding mixed_inbounds tun_inbound profile_tun
inbounds_for system_proxy port value = mixed_inbounds port
inbounds_for tun port value =
    array (cons (object (tun_inbound (profile_tun (member "inbounds" value)))) nil)

-- `value.get_mut("route").and_then(as_object_mut)`, with the insertion in it.
detect_interface : Json → Json
detect_interface (object fs) = elim (get "route" fs) [
  | some (object route) ↦
      object (insert "route" (object (insert "auto_detect_interface" (bool true) route)) fs)
  | _ ↦ object fs
]
detect_interface value = value

pub adapt_value : TrafficMode → String → Json → Option Json
adapt_value mode port value =
    set_at ("inbounds" ∷ []) (inbounds_for mode port value) (detect_interface value)

-- `if !config….is_some_and(is_object) { config… = {} }`
pub ensure_object : Option Json → List String → Json → Option Json
ensure_object (some (object _)) path config = some config
ensure_object _ path config = set_at path (object end) config

abbrev member_of : String → Option Json → Option Json
member_of k none = none
member_of k (some j) = member k j

-- The fields that the client writes back after the merge.
pub write_reserved : String → String → Json → Result RuntimeError Json
write_reserved address secret config = do
  c ← or_panic (ensure_object (member "experimental" config) ("experimental" ∷ []) config)
  c ← or_panic (
      ensure_object (member_of "clash_api" (member "experimental" c))
        ("experimental" ∷ "clash_api" ∷ []) c)
  c ← or_panic (set_at ("experimental" ∷ "clash_api" ∷ "external_controller" ∷ []) (text address) c)
  c ← or_panic (set_at ("experimental" ∷ "clash_api" ∷ "secret" ∷ []) (text secret) c)
  c ← or_panic (ensure_object (member "route" c) ("route" ∷ []) c)
  or_panic (set_at ("route" ∷ "auto_detect_interface" ∷ []) (bool true) c)

abbrev pub applied : Option ProfileOverride → Json → Json × List String
applied none config = (config, [])
applied (some file) config = apply file config

module _ (codec : Codec) where
  open codec use {Text, from_str, to_string, to_string_pretty}

  abbrev read : Text → Result RuntimeError Json
  read t = elim (from_str t) [ none ↦ err not_json | some j ↦ ok j ]

  pub adapt_inbounds : Text → TrafficMode → String → Result RuntimeError Text
  adapt_inbounds config_text mode port = do
    value ← read config_text
    adapted ← or_panic (adapt_value mode port value)
    ok (to_string_pretty adapted)

  pub runtime_config :
      Text
      → TrafficMode
      → (port address secret : String) → Option ProfileOverride
      → Result RuntimeError (Text × List String)
  runtime_config raw mode port address secret override_file = do
    config ← read raw
    reject_if (not (is_object config)) top_level_not_object
    let merged = applied override_file config
    adapted ← adapt_inbounds (to_string merged.0) mode port
    config ← read adapted
    final ← write_reserved address secret config
    ok (to_string_pretty final, merged.1)
