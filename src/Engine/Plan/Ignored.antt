-- ===== src/Engine/Plan/Ignored.antt =====
-- Ignored paths and the diff.
use obsink.Base.{◌≡◌, refl, sym, ◌∙◌, ap, true, false, none, [], ◌∷◌, arith, if◌then◌else◌}
use obsink.Base.Ord.{◌==◌, ==_iff, text_ord}
use obsink.Base.Text.{Text}
use obsink.Base.BTreeMap.{get}
use obsink.Types.{Manifest}
use obsink.Manifest.{diff_manifests, diff_entry, empty_diff, version, version_eq}
use obsink.Manifest.Lookup.{decision_at, none_at, decision_at-diff_manifests}
use obsink.Ignore.{IgnoreRules, is_ignored}
use obsink.Engine.Plan.{keep, diff_local_and_remote}

module _ (ignore : IgnoreRules) (q : Text) where
  same_ignored : (path : Text) → (path == q) ≡ true → is_ignored ignore path ≡ is_ignored ignore q
  same_ignored path h = ap (is_ignored ignore) ((==_iff path q).0 h)

  get-keep :
      (m : Manifest) → get (keep ignore m) q ≡ (if is_ignored ignore q then none else get m q)
  unfolding get
  get-keep [] = ground arith
  get-keep ((path, entry) ∷ m) = ground (arith, get-keep m, same_ignored path)

  nothing_known : decision_at q (diff_entry q none none none empty_diff) ≡ none_at
  unfolding diff_entry version version_eq
  nothing_known = refl

  -- The diff of the local and the remote state decides nothing for a path that the vault ignores,
  -- no upload, download, delete or conflict, also when it was synced before; every other path is
  -- decided as if nothing were ignored.
  pub diff_ignores :
      (base local remote : Manifest)
      → (is_ignored ignore q ≡ true
          → decision_at q (diff_local_and_remote base local remote ignore) ≡ none_at)
        × (is_ignored ignore q ≡ false
            → decision_at q (diff_local_and_remote base local remote ignore)
              ≡ decision_at q (diff_manifests base local remote))
  unfolding diff_local_and_remote
  diff_ignores base local remote =
      let own =
        decision_at-diff_manifests (keep ignore base) (keep ignore local) (keep ignore remote) q in
      (
        λ h.
            let eb : get (keep ignore base) q ≡ none = get-keep base ∙ rw h refl in
            let el : get (keep ignore local) q ≡ none = get-keep local ∙ rw h refl in
            let er : get (keep ignore remote) q ≡ none = get-keep remote ∙ rw h refl in
            own ∙ rw (eb, el, er) nothing_known,
        λ h.
            let eb : get (keep ignore base) q ≡ get base q = get-keep base ∙ rw h refl in
            let el : get (keep ignore local) q ≡ get local q = get-keep local ∙ rw h refl in
            let er : get (keep ignore remote) q ≡ get remote q = get-keep remote ∙ rw h refl in
            own ∙ rw (eb, el, er) (sym (decision_at-diff_manifests base local remote q)),
      )
