-- ===== src/Tests/Merging.antt =====
-- Instances of the theorems on crates/json-merge/src/lib.rs.
use singbox_sub_me.Prelude.{◌≡◌, refl, true, some, [], ◌∷◌}
use singbox_sub_me.Json.{
  Json, bool, number, text, array, object, nil, cons, Fields, end, field, get, extend,
}
use singbox_sub_me.Merge.{deep_merge}
use singbox_sub_me.Merge.Paths.{
  at_path, IsWellFormed, AreWellFormed, IsLeaf, IsUntouched, overlay_wins, base_kept,
}
use singbox_sub_me.Merge.Paths as Paths
use singbox_sub_me.Merge.Rules.{rules_prepended}
use singbox_sub_me.Merge.Reapply as Reapply
use singbox_sub_me.Merge.Reapply.{deep_merge_idempotent}

-- {"log": {"level": "info", "timestamp": true}, "mtu": 1}
abbrev base_fields : Fields
base_fields =
    field "log" (object (field "level" (text "info") (field "timestamp" (bool true) end)))
      (field "mtu" (number "1") end)

-- {"log": {"level": "debug"}}
abbrev overlay_fields : Fields
overlay_fields = field "log" (object (field "level" (text "debug") end)) end

overlay_fields-IsWellFormed : IsWellFormed (object overlay_fields)
unfolding get
overlay_fields-IsWellFormed =
    Paths.an_object (refl, tt)
      (Paths.one_more
        (Paths.an_object (refl, tt) (Paths.one_more (Paths.a_text "debug") Paths.none_left))
        Paths.none_left)

overlay_wins_example :
    at_path ("log" ∷ "level" ∷ []) (deep_merge (object base_fields) (object overlay_fields))
    ≡ some (text "debug")
unfolding at_path get
overlay_wins_example =
    overlay_wins ("log" ∷ "level" ∷ []) (object base_fields) (object overlay_fields) (text "debug")
      overlay_fields-IsWellFormed refl (refl, refl)

base_kept_example :
    at_path ("log" ∷ "timestamp" ∷ []) (deep_merge (object base_fields) (object overlay_fields))
    ≡ at_path ("log" ∷ "timestamp" ∷ []) (object base_fields)
unfolding get
base_kept_example =
    base_kept ("log" ∷ "timestamp" ∷ []) (object base_fields) (object overlay_fields)
      overlay_fields-IsWellFormed tt

-- {"route": {"rules": [rule]}}
abbrev routing : Json → Json
routing rule = object (field "route" (object (field "rules" (array (cons rule nil)) end)) end)

rules_prepended_example :
    at_path
      ("route" ∷ "rules" ∷ [])
      (deep_merge (routing (text "generated")) (routing (text "own")))
    ≡ some (array (extend (cons (text "own") nil) (cons (text "generated") nil)))
unfolding at_path get
rules_prepended_example =
    rules_prepended ("route" ∷ []) (routing (text "generated")) (routing (text "own"))
      (cons (text "generated") nil) (cons (text "own") nil)
      (Paths.an_object (refl, tt)
        (Paths.one_more
          (Paths.an_object (refl, tt) (Paths.one_more (Paths.an_array _) Paths.none_left))
          Paths.none_left))
      refl refl

deep_merge_idempotent_example :
    deep_merge (deep_merge (object base_fields) (object overlay_fields)) (object overlay_fields)
    ≡ deep_merge (object base_fields) (object overlay_fields)
unfolding get
deep_merge_idempotent_example = deep_merge_idempotent (object base_fields) (object overlay_fields) (
    Reapply.an_object (refl, tt)
      (Reapply.one_more refl
        (Reapply.an_object (refl, tt)
          (Reapply.one_more refl (Reapply.a_text "debug") Reapply.no_more))
        Reapply.no_more))
