-- ===== src/Runtime/Steps.antt =====
-- One write of `runtime_config`: what it puts in place and what it leaves alone.
use singbox_sub_me.Prelude.{◌≡◌, refl, String, Option, none, some, List, [], ◌∷◌, ◌++◌, sym, arith}
use singbox_sub_me.Json.{Json, null, object, end, get, member}
use singbox_sub_me.Merge.Paths.{at_path, inside}
use singbox_sub_me.Runtime.{set_at, ensure_object, member_of}
use singbox_sub_me.Runtime.Places.{
  IsObjectAt, Diverge, set_at_below, at_path-set_at, at_path-set_at_ne,
}

-- A step that succeeds, gives an object at `path`, keeps one at `root`, and leaves the paths alone
-- that part from `path`.
pub record IsStep (root path : List String) (before : Json) (result : Option Json) : Type 0 where
  pub after : Json
  pub done : result ≡ some after
  pub rooted : IsObjectAt root after
  pub frame :
      (other : List String) → Diverge path other → at_path other after ≡ at_path other before

pub set_at-IsStep :
    (root : List String) (k : String) (new j : Json)
    → IsObjectAt root j
    → IsStep root (root ++ k ∷ []) j (set_at (root ++ k ∷ []) new j)
set_at-IsStep root k new j o =
    let (after, done, rooted) = set_at_below root k new j o in
    record {
      after = after;
      done = done;
      rooted = rooted;
      frame = λ other d. at_path-set_at_ne (root ++ k ∷ []) other new j d done;
    }

pub ensure-IsStep :
    (root : List String) (k : String) (j : Json) (now : Option Json)
    → IsObjectAt root j
    → now ≡ at_path (root ++ k ∷ []) j
    → (s : IsStep root (root ++ k ∷ []) j (ensure_object now (root ++ k ∷ []) j)) × IsObjectAt
        (root ++ k ∷ [])
        s.after
unfolding ensure_object
ensure-IsStep root k j (some (object fs)) o e =
    (record { after = j; done = refl; rooted = o; frame = λ other d. refl }, (fs, sym e))
ensure-IsStep root k j none o e =
    let s = set_at-IsStep root k (object end) j o in
    (s, (end, at_path-set_at (root ++ k ∷ []) (object end) j s.done))
ensure-IsStep root k j (some null) o e =
    let s = set_at-IsStep root k (object end) j o in
    (s, (end, at_path-set_at (root ++ k ∷ []) (object end) j s.done))
ensure-IsStep root k j (some other) o e =
    let s = set_at-IsStep root k (object end) j o in
    (s, (end, at_path-set_at (root ++ k ∷ []) (object end) j s.done))

pub member-at_path : (k : String) (j : Json) → member k j ≡ at_path (k ∷ []) j
unfolding at_path
member-at_path k (object fs) = elim (get k fs) as (λ o. o ≡ inside (λ x. some x) o) [
  | none ↦ refl
  | some v ↦ refl
]
member-at_path k null = refl
member-at_path k j = refl

pub member_of-at_path :
    (k l : String) (j : Json) → member_of l (member k j) ≡ at_path (k ∷ l ∷ []) j
unfolding at_path
member_of-at_path k l (object fs) =
    elim (get k fs) as (λ o. member_of l o ≡ inside (at_path (l ∷ [])) o) [
      | none ↦ refl
      | some v ↦ member-at_path l v
    ]
member_of-at_path k l null = refl
member_of-at_path k l j = refl

pub IsObjectAt-root :
    (k : String) (ks : List String) (j : Json) → IsObjectAt (k ∷ ks) j → IsObjectAt [] j
unfolding at_path
IsObjectAt-root k ks (object fs) o = (fs, refl)
IsObjectAt-root k ks null o = absurd (ground arith)
IsObjectAt-root k ks j o = absurd (ground arith)
