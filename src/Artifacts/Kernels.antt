-- ===== src/Artifacts/Kernels.antt =====
-- src/subscription/artifacts.rs: what asking a kernel for the full profile changes in the generated set.
use mathlib.Core.Path.{subst}
use singbox_sub_me.Prelude.{
  ◌≡◌, refl, ◌⊎◌, inl, inr, String, Bool, true, false, Option, none, some, List, [], ◌∷◌, str_eq,
  arith, Result, ok, err, ◌++◌, ◌∙◌, ap, sym, ◌>>=◌, reject_if, >>=-eq-ok, >>-eq-ok, ok-injective,
}
use singbox_sub_me.Config.{DeploymentConfig, ManagedProtocol}
use singbox_sub_me.Disk.{is_ok}
use singbox_sub_me.Artifacts.{
  SubscriptionError, missing_nodes, server_name, find, Artifacts, reversed,
}
use singbox_sub_me.Artifacts.Generation.{
  VersionProfile, latest, version_profiles, Renderers, select_from, select_full_profile,
  resolve_full_profile, is_empty, full_name, legacy_name, Templates, Overrides,
  apply_client_overrides, edit_both, edit_sing_box, edit_clash, version_artifacts, generated_with,
  generated_artifacts_for_kernel,
}
use singbox_sub_me.Artifacts.Agreement.{
  Agree, Agree-refl, find-Agree, merged, edit_sing_box-Agree, sing_box_found, edit_clash-Agree,
  clash_found,
}

module _ {Bytes : Type 0} where
  abbrev IsRendered : Renderers Bytes → VersionProfile → Type 0
  IsRendered render p = is_ok (render.sing_box_full p) ≡ true

  select_from-IsRendered :
      (render : Renderers Bytes) (nodes : List ManagedProtocol)
      (accepts : VersionProfile → Bytes → Bool) (candidates : List VersionProfile)
      → IsRendered render latest
      → IsRendered render (select_from render nodes accepts candidates)
  unfolding select_from
  select_from-IsRendered render nodes accepts [] h = h
  select_from-IsRendered render nodes accepts (p ∷ ps) h =
      ground (arith, select_from-IsRendered render nodes accepts ps h)

  select_from_choice :
      (render : Renderers Bytes) (nodes : List ManagedProtocol)
      (accepts : VersionProfile → Bytes → Bool) (candidates : List VersionProfile)
      (contents : Bytes)
      → render.sing_box_full (select_from render nodes accepts candidates) ≡ ok contents
      → (accepts (select_from render nodes accepts candidates) contents ≡ true)
        ⊎ (render.sing_box_full latest ≡ ok contents)
  unfolding select_from
  select_from_choice render nodes accepts [] contents h = inr h
  select_from_choice render nodes accepts (p ∷ ps) contents h =
      ground (arith, select_from_choice render nodes accepts ps contents)

  set_value :
      (r : Result SubscriptionError (Artifacts Bytes))
      → is_ok r ≡ true
      → (xs : Artifacts Bytes) × (r ≡ ok xs)
  set_value (ok xs) works = (xs, refl)
  set_value (err e) works = cc

  generated_with-latest :
      (render : Renderers Bytes) (nodes : List ManagedProtocol) (xs : Artifacts Bytes)
      → generated_with render nodes latest ≡ ok xs
      → IsRendered render latest
  generated_with-latest render nodes xs works = ground arith

  generated_with_other :
      (render : Renderers Bytes) (nodes : List ManagedProtocol) (p : VersionProfile)
      (xs : Artifacts Bytes)
      → generated_with render nodes latest ≡ ok xs
      → IsRendered render p
      → is_ok (generated_with render nodes p) ≡ true
  generated_with_other render nodes p xs works rendered = ground arith

  full_found :
      (render : Renderers Bytes) (nodes : List ManagedProtocol) (p : VersionProfile)
      (contents : Bytes) (xs : Artifacts Bytes)
      → generated_with render nodes p ≡ ok xs
      → find full_name xs ≡ some contents
      → render.sing_box_full p ≡ ok contents
  full_found render nodes p contents xs made h = ground arith

  abbrev assembled :
      (Bytes → Bytes) → (u s sb c sh f : Bytes) → Artifacts Bytes → (l : Bytes) → Artifacts Bytes
  assembled base u s sb c sh f v l =
      (server_name, s)
      ∷ ("subscription-sing-box.json", sb)
      ∷ ("subscription-clash.yaml", c)
      ∷ ("subscription-uri.txt", u)
      ∷ ("subscription-base64-uri.txt", base u)
      ∷ ("subscription-shadowrocket.txt", sh)
      ∷ (full_name, f)
      ∷ (v ++ (legacy_name, l) ∷ [])

  assembled-Agree :
      (Fit : Bytes → Type 0) (base : Bytes → Bytes) (u s sb c sh f g : Bytes) (v : Artifacts Bytes)
      (l : Bytes)
      → Fit g
      → Agree Fit (assembled base u s sb c sh f v l) (assembled base u s sb c sh g v l)
  assembled-Agree Fit base u s sb c sh f g v l fit =
      let same = Agree-refl Fit (v ++ (legacy_name, l) ∷ []) in
      (
        refl,
        inl refl,
        (
          refl,
          inl refl,
          (
            refl,
            inl refl,
            (refl, inl refl, (refl, inl refl, (refl, inl refl, (refl, inr (refl, fit), same)))),
          ),
        ),
      )

  -- The renderings in the order of `generated_with`.
  abbrev collect :
      (Bytes → Bytes)
      → (u s sb c sh f : Result SubscriptionError Bytes)
      → Result SubscriptionError (Artifacts Bytes)
      → Result SubscriptionError Bytes
      → Result SubscriptionError (Artifacts Bytes)
  collect base u s sb c sh f v l = do
    uri ← u
    server ← s
    sing_box ← sb
    clash ← c
    shadowrocket ← sh
    full ← f
    versions ← v
    legacy ← l
    ok (assembled base uri server sing_box clash shadowrocket full versions legacy)

  collect-Agree :
      (Fit : Bytes → Type 0) (base : Bytes → Bytes)
      (u s sb c sh f g : Result SubscriptionError Bytes)
      (v : Result SubscriptionError (Artifacts Bytes)) (l : Result SubscriptionError Bytes)
      (xs ys : Artifacts Bytes)
      → ((contents : Bytes) → g ≡ ok contents → Fit contents)
      → collect base u s sb c sh f v l ≡ ok xs
      → collect base u s sb c sh g v l ≡ ok ys
      → Agree Fit xs ys
  collect-Agree Fit base (ok u) (ok s) (ok sb) (ok c) (ok sh) (ok f) (ok g) (ok v) (ok l) xs ys fits
        a b =
      subst (λ zs. Agree Fit zs ys) (ok-injective a)
        (subst (λ zs. Agree Fit (assembled base u s sb c sh f v l) zs) (ok-injective b)
          (assembled-Agree Fit base u s sb c sh f g v l (fits g refl)))
  collect-Agree Fit base (err e) s sb c sh f g v l xs ys fits a b = cc
  collect-Agree Fit base (ok u) (err e) sb c sh f g v l xs ys fits a b = cc
  collect-Agree Fit base (ok u) (ok s) (err e) c sh f g v l xs ys fits a b = cc
  collect-Agree Fit base (ok u) (ok s) (ok sb) (err e) sh f g v l xs ys fits a b = cc
  collect-Agree Fit base (ok u) (ok s) (ok sb) (ok c) (err e) f g v l xs ys fits a b = cc
  collect-Agree Fit base (ok u) (ok s) (ok sb) (ok c) (ok sh) (err e) g v l xs ys fits a b = cc
  collect-Agree Fit base (ok u) (ok s) (ok sb) (ok c) (ok sh) (ok f) (err e) v l xs ys fits a b = cc
  collect-Agree Fit base (ok u) (ok s) (ok sb) (ok c) (ok sh) (ok f) (ok g) (err e) l xs ys fits a
        b =
      cc
  collect-Agree Fit base (ok u) (ok s) (ok sb) (ok c) (ok sh) (ok f) (ok g) (ok v) (err e) xs ys
        fits a b =
      cc

  generated_with-Agree :
      (Fit : Bytes → Type 0) (render : Renderers Bytes) (nodes : List ManagedProtocol)
      (p : VersionProfile) (xs ys : Artifacts Bytes)
      → ((contents : Bytes) → render.sing_box_full p ≡ ok contents → Fit contents)
      → generated_with render nodes latest ≡ ok xs
      → generated_with render nodes p ≡ ok ys
      → Agree Fit xs ys
  generated_with-Agree Fit render nodes p xs ys fits a b =
      let some_nodes = reject_if (is_empty nodes) missing_nodes in
      let versions = version_artifacts render nodes version_profiles in
      let collected = λ (q : VersionProfile).
        collect render.base64_uri render.uri render.server render.sing_box render.clash
          render.shadowrocket (render.sing_box_full q) versions render.clash_legacy in
      let (_, made) = >>-eq-ok some_nodes (collected latest) a in
      let (_, made') = >>-eq-ok some_nodes (collected p) b in
      collect-Agree Fit render.base64_uri render.uri render.server render.sing_box render.clash
        render.shadowrocket (render.sing_box_full latest) (render.sing_box_full p) versions
        render.clash_legacy xs ys fits made made'

  abbrev pub found : String → Result SubscriptionError (Artifacts Bytes) → Option Bytes
  found name (ok artifacts) = find name artifacts
  found name (err e) = none

  both_of :
      (templates : Templates Bytes) (overrides : Overrides Bytes) (xs out : Artifacts Bytes)
      → templates.load ≡ ok overrides
      → apply_client_overrides templates xs ≡ ok out
      → edit_both templates overrides xs ≡ ok out
  unfolding apply_client_overrides
  both_of templates overrides xs out loaded made = rw loaded at made

  edits_follow :
      (templates : Templates Bytes) (overrides : Overrides Bytes)
      (generated : Result SubscriptionError (Artifacts Bytes)) (xs mid out : Artifacts Bytes)
      → generated ≡ ok xs
      → templates.load ≡ ok overrides
      → edit_sing_box templates overrides.sing_box xs ≡ ok mid
      → edit_clash overrides.clash mid ≡ ok out
      → (generated >>= apply_client_overrides templates) ≡ ok out
  unfolding apply_client_overrides
  edits_follow templates overrides generated xs mid out made loaded first second =
      rw (made, loaded, first, second) refl

  -- If the artifacts can be generated without a kernel, and the override can be merged into each full
  -- profile that is rendered, they can be generated with any kernel: every artifact but the full profile
  -- is the same, and the full profile is the merge of the override, if there is one, into a rendering
  -- that the kernel accepts or that of the newest version.
  pub kernel_never_fails :
      (templates : Templates Bytes) (renderers : DeploymentConfig → Renderers Bytes)
      (accepts : Bytes → Bool) (config : DeploymentConfig) (overrides : Overrides Bytes)
      → templates.load ≡ ok overrides
      → ((p : VersionProfile) (contents : Bytes)
          → (renderers config).sing_box_full p ≡ ok contents
          → is_ok (merged templates overrides.sing_box contents) ≡ true)
      → is_ok (generated_artifacts_for_kernel templates renderers none config) ≡ true
      → let plain = generated_artifacts_for_kernel templates renderers none config in
        let chosen = generated_artifacts_for_kernel templates renderers (some accepts) config in
        (is_ok chosen ≡ true)
        × ((name : String) → str_eq full_name name ≡ false → found name plain ≡ found name chosen)
        × ((contents : Bytes)
            → found full_name chosen ≡ some contents
            → (rendered : Bytes) × (merged templates overrides.sing_box rendered ≡ ok contents)
              × ((accepts rendered ≡ true)
                  ⊎ ((renderers config).sing_box_full latest ≡ ok rendered)))
  unfolding generated_artifacts_for_kernel resolve_full_profile select_full_profile
      apply_client_overrides
  kernel_never_fails templates renderers accepts config overrides loaded fits works =
      let render = renderers config in
      let nodes = config.enabled_protocols in
      let asks = λ (p : VersionProfile) (rendered : Bytes). accepts rendered in
      let chosen = select_full_profile render nodes asks in
      let edit_set = apply_client_overrides templates in
      let (final, plain) = set_value (generated_with render nodes latest >>= edit_set) works in
      let (xs, made, edited_) = >>=-eq-ok (generated_with render nodes latest) edit_set plain in
      let (ys, made') = set_value (generated_with render nodes chosen) (
        generated_with_other render nodes chosen xs made (
          select_from-IsRendered render nodes asks (reversed version_profiles)
            (generated_with-latest render nodes xs made))) in
      let agree =
        generated_with-Agree (λ b. is_ok (merged templates overrides.sing_box b) ≡ true) render
          nodes chosen xs ys (fits chosen) made made' in
      let both : edit_both templates overrides xs ≡ ok final =
        both_of templates overrides xs final loaded edited_ in
      let (mid, first, second) =
        >>=-eq-ok (edit_sing_box templates overrides.sing_box xs) (edit_clash overrides.clash)
          both in
      let (mid', first', agree₁) =
        edit_sing_box-Agree templates overrides.sing_box xs ys mid agree first in
      let (out', second', agree₂) = edit_clash-Agree overrides.clash mid mid' final agree₁ second in
      let whole : generated_artifacts_for_kernel templates renderers (some accepts) config
          ≡ ok out' =
        edits_follow templates overrides (generated_with render nodes chosen) ys mid' out' made'
          loaded first' second' in
      (
        ap is_ok whole,
        λ name other.
            ap (found name) plain
            ∙ find-Agree (λ b. Unit) name final out' other agree₂
            ∙ sym (ap (found name) whole),
        λ contents h.
            let there : find full_name out' ≡ some contents =
              ap (found full_name) (sym whole) ∙ h in
            let (rendered, listed, is) =
              sing_box_found templates overrides.sing_box ys mid' contents first'
                (clash_found overrides.clash mid' out' contents second' there) in
            (
              rendered,
              is,
              select_from_choice render nodes asks (reversed version_profiles) rendered
                  (full_found render nodes chosen rendered ys made' listed),
            ),
      )
