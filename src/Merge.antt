-- ===== src/Merge.antt =====
-- crates/json-merge/src/lib.rs: the deep merge that every configuration override uses.
pub mod Lookup
pub mod Paths
pub mod Rules
pub mod Reapply
use singbox_sub_me.Prelude.{String, ◌&&◌, str_eq, if◌then◌else◌}
use singbox_sub_me.Json.{Json, array, object, Fields, end, field, is_array, extend, upsert}

-- `overlay_rules.clone()` extended by the base rules; called on two arrays only.
abbrev pub prepend : Json → Json → Json
prepend (array overlay_rules) (array base_rules) = array (extend overlay_rules base_rules)
prepend overlay base = overlay

-- What the loop body does to an entry that the base has; `merge` is the recursive call on `value`.
unfoldable pub merge_entry : (Json → Json) → String → Json → Json → Json
merge_entry merge key value existing =
    if str_eq key "rules" && is_array existing && is_array value
    then prepend value existing
    else merge existing

unfoldable mutual
  pub deep_merge : Json → Json → Json
  deep_merge (object base_map) (object overlay_map) = object (merge_map base_map overlay_map)
  deep_merge _ overlay = overlay

  -- The loop over `overlay_map`.
  pub merge_map : Fields → Fields → Fields
  merge_map base_map end = base_map
  merge_map base_map (field key value rest) =
      merge_map
        (upsert key (merge_entry (λ existing. deep_merge existing value) key value) value base_map)
        rest
