-- ===== src/Runtime/Reserved.antt =====
-- Whatever an override does, the fields that the client reserves end up as the client wants them.
use singbox_sub_me.Prelude.{
  ◌≡◌, ◌≢◌, refl, String, true, Option, none, some, List, [], ◌∷◌, inl, inr, ◌∙◌, ok, arith, eq_iff,
  All, Bool-cases,
}
use singbox_sub_me.Json.{Json, null, bool, text, object, Fields, get, member, is_object, insert}
use singbox_sub_me.Merge.{deep_merge, merge_map}
use singbox_sub_me.Merge.Lookup.{deep_merge_objects}
use singbox_sub_me.Merge.Paths.{at_path}
use singbox_sub_me.Override.{ProfileOverride, RuleFragment, apply, merge_all, enabled_of}
use singbox_sub_me.Runtime.{
  TrafficMode, Codec, member_of, write_reserved, adapt_value, inbounds_for, detect_interface,
  applied, adapt_inbounds, runtime_config,
}
use singbox_sub_me.Runtime.Places.{IsObjectAt, set_at_below, at_path-set_at}
use singbox_sub_me.Runtime.Steps.{
  set_at-IsStep, ensure-IsStep, member-at_path, member_of-at_path, IsObjectAt-root,
}

route_apart : ◌≢◌ {A = String} "route" "experimental"
route_apart = ground (arith, eq_iff "route" "experimental")

route_inbounds : ◌≢◌ {A = String} "route" "inbounds"
route_inbounds = ground (arith, eq_iff "route" "inbounds")

experimental_inbounds : ◌≢◌ {A = String} "experimental" "inbounds"
experimental_inbounds = ground (arith, eq_iff "experimental" "inbounds")

secret_controller : ◌≢◌ {A = String} "secret" "external_controller"
secret_controller = ground (arith, eq_iff "secret" "external_controller")

abbrev controller : List String
controller = "experimental" ∷ "clash_api" ∷ "external_controller" ∷ []

abbrev secret_path : List String
secret_path = "experimental" ∷ "clash_api" ∷ "secret" ∷ []

abbrev auto_detect : List String
auto_detect = "route" ∷ "auto_detect_interface" ∷ []

pub record IsReserved (address secret : String) (config : Json) : Type 0 where
  pub address_kept : at_path controller config ≡ some (text address)
  pub secret_kept : at_path secret_path config ≡ some (text secret)
  pub detection_on : at_path auto_detect config ≡ some (bool true)

write_reserved-IsReserved :
    (address secret : String) (config : Json)
    → IsObjectAt [] config
    → (final : Json) × (write_reserved address secret config ≡ ok final)
      × IsReserved address secret final
      × (at_path ("inbounds" ∷ []) final ≡ at_path ("inbounds" ∷ []) config)
unfolding write_reserved
write_reserved-IsReserved address secret config o =
    let (s₁, e₁) =
      ensure-IsStep [] "experimental" config (member "experimental" config) o
        (member-at_path "experimental" config) in
    let (s₂, e₂) =
      ensure-IsStep ("experimental" ∷ []) "clash_api" s₁.after
        (member_of "clash_api" (member "experimental" s₁.after)) e₁
        (member_of-at_path "experimental" "clash_api" s₁.after) in
    let s₃ =
      set_at-IsStep ("experimental" ∷ "clash_api" ∷ []) "external_controller" (text address)
        s₂.after e₂ in
    let s₄ =
      set_at-IsStep ("experimental" ∷ "clash_api" ∷ []) "secret" (text secret) s₃.after s₃.rooted in
    let o₄ = IsObjectAt-root "experimental" ("clash_api" ∷ []) s₄.after s₄.rooted in
    let (s₅, e₅) =
      ensure-IsStep [] "route" s₄.after (member "route" s₄.after) o₄
        (member-at_path "route" s₄.after) in
    let s₆ = set_at-IsStep ("route" ∷ []) "auto_detect_interface" (bool true) s₅.after e₅ in
    let after_api = λ (leaf : String).
      s₆.frame ("experimental" ∷ "clash_api" ∷ leaf ∷ []) (inl route_apart)
      ∙ s₅.frame ("experimental" ∷ "clash_api" ∷ leaf ∷ []) (inl route_apart) in
    (
      s₆.after,
      rw (s₁.done, s₂.done, s₃.done, s₄.done, s₅.done, s₆.done),
      record {
        address_kept =
            after_api "external_controller"
            ∙ s₄.frame controller (inr (refl, inr (refl, inl secret_controller)))
            ∙ at_path-set_at controller (text address) s₂.after s₃.done;
        secret_kept =
            after_api "secret" ∙ at_path-set_at secret_path (text secret) s₃.after s₄.done;
        detection_on = at_path-set_at auto_detect (bool true) s₅.after s₆.done;
      },
      s₆.frame ("inbounds" ∷ []) (inl route_inbounds)
          ∙ s₅.frame ("inbounds" ∷ []) (inl route_inbounds)
          ∙ s₄.frame ("inbounds" ∷ []) (inl experimental_inbounds)
          ∙ s₃.frame ("inbounds" ∷ []) (inl experimental_inbounds)
          ∙ s₂.frame ("inbounds" ∷ []) (inl experimental_inbounds)
          ∙ s₁.frame ("inbounds" ∷ []) (inl experimental_inbounds),
    )

detect_interface-object : (fs : Fields) → (gs : Fields) × (detect_interface (object fs) ≡ object gs)
unfolding detect_interface
detect_interface-object fs =
    elim (get "route" fs)
      as (λ o.
        (gs : Fields) × (elim o [
          | some (object route) ↦
              object (insert "route" (object (insert "auto_detect_interface" (bool true) route)) fs)
          | _ ↦ object fs
        ]
          ≡ object gs)) [
            | none ↦ (fs, refl)
            | some (object route) ↦ (
              insert "route" (object (insert "auto_detect_interface" (bool true) route)) fs,
              refl,
            )
            | some null ↦ (fs, refl)
            | some j ↦ (fs, refl)
          ]

adapt_value_total :
    (mode : TrafficMode) (port : String) (fs : Fields)
    → (after : Json) × (adapt_value mode port (object fs) ≡ some after)
      × IsObjectAt [] after
      × (at_path ("inbounds" ∷ []) after ≡ some (inbounds_for mode port (object fs)))
unfolding adapt_value
adapt_value_total mode port fs =
    let (gs, same) = detect_interface-object fs in
    let new = inbounds_for mode port (object fs) in
    let (after, done, rooted) =
      set_at_below [] "inbounds" new (object gs) (unfold at_path in (gs, refl)) in
    (after, rw same done, rooted, at_path-set_at ("inbounds" ∷ []) new (object gs) done)

-- Every enabled fragment is an object, as `parse` makes sure.
abbrev pub HasObjects : Option ProfileOverride → Type 0
HasObjects none = Unit
HasObjects (some file) = All (λ f. is_object f.overlay ≡ true) file.fragments

deep_merge-object :
    (base : Fields) (overlay : Json)
    → is_object overlay ≡ true
    → (gs : Fields) × (deep_merge (object base) overlay ≡ object gs)
deep_merge-object base (object os) h = (merge_map base os, deep_merge_objects base os)
deep_merge-object base null h = cc
deep_merge-object base _ h = cc

merge_all-object :
    (fs : List RuleFragment) (base : Fields)
    → All (λ f. is_object f.overlay ≡ true) fs
    → (gs : Fields) × ((merge_all (enabled_of fs) (object base)).0 ≡ object gs)
unfolding merge_all enabled_of
merge_all-object [] base h = (base, refl)
merge_all-object (f ∷ fs) base (p, h) =
    let (gs, e) = merge_all-object fs base h in
    let (merged, same) = deep_merge-object gs f.overlay p in
    elim (Bool-cases f.enabled) [ inl on ↦ (merged, rw (on, e) same) | inr off ↦ (gs, rw off e) ]

applied-object :
    (file : Option ProfileOverride) (base : Fields)
    → HasObjects file
    → (gs : Fields) × ((applied file (object base)).0 ≡ object gs)
unfolding apply
applied-object none base h = (base, refl)
applied-object (some file) base h = merge_all-object file.fragments base h

-- A start's configuration, for any override whose fragments are objects: the text that
-- `runtime_config` gives reads back as a document whose reserved fields are the client's own, and
-- whose inbounds are those of the traffic mode, whatever the subscription and the override said.
-- The reported conflicts are those of the override. Never a panic.
pub runtime_config-IsReserved :
    (codec : Codec) (raw : codec.Text) (mode : TrafficMode) (port address secret : String)
    (file : Option ProfileOverride) (base : Fields)
    → codec.from_str raw ≡ some (object base)
    → HasObjects file
    → (out : codec.Text) × (runtime_config codec raw mode port address secret file
        ≡ ok (out, (applied file (object base)).1))
      × (config : Json) × (codec.from_str out ≡ some config)
      × IsReserved address secret config
      × (at_path ("inbounds" ∷ []) config
          ≡ some (inbounds_for mode port (applied file (object base)).0))
unfolding runtime_config adapt_inbounds
runtime_config-IsReserved codec raw mode port address secret file base readable objects =
    let (gs, merged) = applied-object file base objects in
    let (adapted, e₁, rooted, inbounds₁) = adapt_value_total mode port gs in
    let (final, e₂, reserved, inbounds₂) =
      write_reserved-IsReserved address secret adapted rooted in
    (
      codec.to_string_pretty final,
      ground (
        arith,
        readable,
        merged,
        e₁,
        e₂,
        codec.from_str-to_string (applied file (object base)).0,
        codec.from_str-to_string_pretty adapted,
      ),
      final,
      codec.from_str-to_string_pretty final,
      reserved,
      rw merged (inbounds₂ ∙ inbounds₁),
    )
