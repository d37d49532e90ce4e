-- ===== src/Override.antt =====
-- crates/client-core/src/config_override.rs: one profile's override file, as fragments that are
-- merged into the subscription's configuration. The file's path and its texts stay outside.
pub mod Precedence
pub mod Conflicts
pub mod Toggle
pub mod Reading
pub mod RoundTrip
pub mod Shapes
use Prim.Native.Char.{code}
use Prim.Native.String
use singbox_sub_me.Prelude.{
  ℕ, suc, ◌+◌, ◌≡◌, String, Bool, true, false, ◌&&◌, ◌||◌, not, Option, none, some, List, [], ◌∷◌,
  ◌++◌, str_eq, leb, ◌==◌, if◌then◌else◌, Result, ok, err, ◌>>=◌, ◌>>◌, reject_if, sort, dedup,
}
use singbox_sub_me.Json.{
  Json, null, bool, number, text, array, object, Items, nil, cons, Fields, end, field, get, as_str,
  as_bool, is_object,
}
use singbox_sub_me.Merge.{deep_merge}
use singbox_sub_me.Merge.Paths.{at_path}

-- `anyhow` errors, one constructor for each message; `ℕ` is the index in `/fragments`.
pub data OverrideError : Type 0 where
  not_an_object fragments_not_array : OverrideError
  fragment_not_object : ℕ → OverrideError
  unknown_key : ℕ → String → OverrideError
  bad_id blank_id bad_label bad_enabled bad_overlay : ℕ → OverrideError
  duplicate_id : String → OverrideError
  implicit_file : OverrideError
  unknown_id : String → OverrideError

pub record RuleFragment : Type 0 where
  pub id : String
  pub label : String
  pub enabled : Bool
  pub overlay : Json

pub record ProfileOverride : Type 0 where
  pub implicit : Bool
  pub fragments : List RuleFragment

-- Rust's `char::is_whitespace`.
abbrev pub is_whitespace : ℕ → Bool
is_whitespace c =
    (leb 9 c && leb c 13)
    || c == 32
    || c == 0x85
    || c == 0xA0
    || c == 0x1680
    || (leb 0x2000 c && leb c 0x200A)
    || c == 0x2028
    || c == 0x2029
    || c == 0x202F
    || c == 0x205F
    || c == 0x3000

-- `id.trim().is_empty()`
unfoldable pub is_blank : String → Bool
is_blank String.[] = true
is_blank (String.◌∷◌ c s) = is_whitespace (code c) && is_blank s

is_fragment_key : String → Bool
is_fragment_key key =
    str_eq key "id" || str_eq key "label" || str_eq key "enabled" || str_eq key "overlay"

check_keys : ℕ → Fields → Result OverrideError (Unit {0})
check_keys index end = ok tt
check_keys index (field key _ rest) =
    if is_fragment_key key then check_keys index rest else err (unknown_key index key)

-- `with_context`: a missing value is the error `e`.
abbrev pub required {ℓ} : {A : Type ℓ} → OverrideError → Option A → Result OverrideError A
required e none = err e
required e (some a) = ok a

-- A key that may be left out, with its default.
abbrev pub optional {ℓ} :
    {A : Type ℓ} → A → OverrideError → (Json → Option A) → Option Json → Result OverrideError A
optional default e read none = ok default
optional default e read (some v) = required e (read v)

abbrev pub inside {ℓ} : {A : Type ℓ} → (Json → Option A) → Option Json → Option A
inside f none = none
inside f (some v) = f v

-- `value.as_object()`, kept as the object itself
abbrev pub as_object : Json → Option Json
as_object (object fs) = some (object fs)
as_object _ = none

parse_fields : ℕ → Fields → Result OverrideError RuleFragment
parse_fields index fs = do
  check_keys index fs
  id ← required (bad_id index) (inside as_str (get "id" fs))
  reject_if (is_blank id) (blank_id index)
  label ← optional id (bad_label index) as_str (get "label" fs)
  enabled ← optional true (bad_enabled index) as_bool (get "enabled" fs)
  overlay ← required (bad_overlay index) (inside as_object (get "overlay" fs))
  ok (record { id = id; label = label; enabled = enabled; overlay = overlay })

parse_fragment : ℕ → Json → Result OverrideError RuleFragment
parse_fragment index (object fs) = parse_fields index fs
parse_fragment index _ = err (fragment_not_object index)

pub parse_list : ℕ → Items → Result OverrideError (List RuleFragment)
parse_list index nil = ok []
parse_list index (cons entry rest) = do
  f ← parse_fragment index entry
  fs ← parse_list (index + 1) rest
  ok (f ∷ fs)

abbrev pub contains : String → List String → Bool
contains s [] = false
contains s (t ∷ ts) = str_eq t s || contains s ts

pub check_ids : List String → List RuleFragment → Result OverrideError (Unit {0})
check_ids seen [] = ok tt
check_ids seen (f ∷ fs) =
    if contains f.id seen then err (duplicate_id f.id) else check_ids (seen ++ f.id ∷ []) fs

-- The hand-written shape: the whole document is the overlay of one fragment.
abbrev pub hand_written : Json → ProfileOverride
hand_written document = record {
  implicit = true;
  fragments =
      record { id = "override"; label = "整份覆写（手写文件）"; enabled = true; overlay = document } ∷ [];
}

-- `parse`, from the value that `serde_json` has read.
unfoldable pub parse_object : Option Json → Json → Result OverrideError ProfileOverride
parse_object none document = ok (hand_written document)
parse_object (some (array list)) document = do
  fragments ← parse_list 0 list
  check_ids [] fragments
  ok (record { implicit = false; fragments = fragments })
parse_object (some _) document = err fragments_not_array

unfoldable pub parse : Json → Result OverrideError ProfileOverride
parse (object fs) = parse_object (get "fragments" fs) (object fs)
parse _ = err not_an_object

unfoldable pub enabled_of : List RuleFragment → List RuleFragment
enabled_of [] = []
enabled_of (f ∷ fs) = let rest = enabled_of fs in if f.enabled then f ∷ rest else rest

-- `RESERVED_POINTERS`, as lists of keys.
abbrev pub reserved_pointers : List (List String)
reserved_pointers =
    ("experimental" ∷ "clash_api" ∷ "external_controller" ∷ [])
    ∷ ("experimental" ∷ "clash_api" ∷ "secret" ∷ [])
    ∷ ("route" ∷ "auto_detect_interface" ∷ [])
    ∷ ("inbounds" ∷ [])
    ∷ []

-- `parts.join("/")`, after the first part.
abbrev join_rest : List String → String
join_rest [] = ""
join_rest (k ∷ ks) = String.◌++◌ "/" (String.◌++◌ k (join_rest ks))

pointer : List String → String
pointer [] = "/"
pointer (k ∷ ks) = String.◌++◌ "/" (String.◌++◌ k (join_rest ks))

-- The rendered pointers that `Value::pointer` finds in the overlay. None of their keys is a number,
-- so the lookup goes through objects only.
touched : Json → List (List String) → List String
touched overlay [] = []
touched overlay (path ∷ paths) =
    let rest = touched overlay paths in
    elim (at_path path overlay) [ none ↦ rest | some _ ↦ pointer path ∷ rest ]

pub fragment_conflicts : RuleFragment → List String
unfolding touched pointer at_path
fragment_conflicts f = touched f.overlay reserved_pointers

-- The loop of `apply` over the enabled fragments, last to first.
unfoldable pub merge_all : List RuleFragment → Json → Json × List String
merge_all [] base = (base, [])
merge_all (f ∷ fs) base =
    let (merged, conflicts) = merge_all fs base in
    (deep_merge merged f.overlay, conflicts ++ fragment_conflicts f)

-- The merged base, and the conflicts that are reported.
unfoldable pub apply : ProfileOverride → Json → Json × List String
apply file base =
    let (merged, conflicts) = merge_all (enabled_of file.fragments) base in
    (merged, dedup (sort conflicts))

pub all_conflicts : List RuleFragment → List String
all_conflicts [] = []
all_conflicts (f ∷ fs) = fragment_conflicts f ++ all_conflicts fs

pub reserved_conflicts : ProfileOverride → List String
reserved_conflicts file = dedup (sort (all_conflicts (enabled_of file.fragments)))

-- `json!` of one fragment, and of the whole document: what `to_text` prints.
pub fragment_value : RuleFragment → Json
fragment_value f = object (
    field "id" (text f.id) (
      field "label" (text f.label)
        (field "enabled" (bool f.enabled) (field "overlay" f.overlay end))))

pub fragment_values : List RuleFragment → Items
unfolding fragment_value
fragment_values [] = nil
fragment_values (f ∷ fs) = cons (fragment_value f) (fragment_values fs)

pub to_document : ProfileOverride → Json
to_document file = object (field "fragments" (array (fragment_values file.fragments)) end)

abbrev pub chosen : Option Bool → Bool → Bool
chosen none now = not now
chosen (some b) now = b

-- The fragment at the first position with the id; `none` where there is none.
unfoldable pub toggle_list :
    String → Option Bool → List RuleFragment → Option (List RuleFragment × Bool)
toggle_list id choice [] = none
toggle_list id choice (f ∷ fs) =
    let rest = toggle_list id choice fs in
    if str_eq f.id id
    then some (record f { enabled = chosen choice f.enabled } ∷ fs, chosen choice f.enabled)
    else elim rest [ none ↦ none | some (gs, b) ↦ some (f ∷ gs, b) ]

unfoldable pub toggle :
    ProfileOverride → String → Option Bool → Result OverrideError (ProfileOverride × Bool)
toggle file id choice =
    if file.implicit then err implicit_file else elim (toggle_list id choice file.fragments) [
      | none ↦ err (unknown_id id)
      | some (fs, b) ↦ ok (record file { fragments = fs }, b)
    ]
