-- ===== src/Manifest/Checkpoint.antt =====
-- The checkpoint after a sync, and what the next diff finds.
use obsink.Base.{
  ◌≡◌, refl, sym, ◌∙◌, subst, true, false, Option, none, List, [], ◌∷◌, arith, if◌then◌else◌, inl,
  inr, Option-cases, is_some, not,
}
use obsink.Base.Ord.{◌==◌, ==_iff, ==_refl, text_ord}
use obsink.Base.Text.{Text}
use obsink.Base.BTreeMap.{get, get-insert, get-remove, contains, keys}
use obsink.Base.BTreeMap.Order.{IsSorted, insert-IsSorted, remove-IsSorted}
use obsink.Types.{FileEntry, Manifest}
use obsink.Manifest.{
  empty_diff, Version, version, version_eq, diff_entry, diff_manifests, hold_back_entry,
  checkpoint_manifest, action,
}
use obsink.Manifest.Lookup.{Decision, decision_at, none_at, decision_at-diff_manifests}
use obsink.Manifest.Merge.{version_eq_iff}

module _ (prev : Manifest) (p : Text) where
  get-hold_back_entry :
      (next : Manifest) (q : Text)
      → get (hold_back_entry prev next q) p ≡ (if q == p then get prev p else get next p)
  unfolding hold_back_entry
  get-hold_back_entry next q = elim (Option-cases (get prev q)) [
    | inl e ↦ rw (e, hold_back_entry, get-remove) (ground (arith, ==_iff q p, e))
    | inr (entry, e) ↦ rw (e, hold_back_entry, get-insert) (ground (arith, ==_iff q p, e))
  ]

  -- A held-back path keeps its entry of the last checkpoint, or stays without one; every other path
  -- has the entry of the re-fetched manifest.
  pub get-checkpoint_manifest :
      (hold_back : List Text) (refetched : Manifest)
      → get (checkpoint_manifest prev refetched hold_back) p
        ≡ (if contains hold_back p then get prev p else get refetched p)
  unfolding checkpoint_manifest contains
  get-checkpoint_manifest [] refetched = refl
  get-checkpoint_manifest (q ∷ hold_back) refetched = ground (
    arith,
    get-checkpoint_manifest hold_back (hold_back_entry prev refetched q),
    get-hold_back_entry refetched q,
  )

-- The base does not decide a path that both sides have at the same version.
converged :
    (p : Text) (b l r : Option FileEntry)
    → version l ≡ version r
    → decision_at p (diff_entry p b l r empty_diff) ≡ none_at
unfolding diff_entry
converged p b l r h = ground (arith, version_eq_iff (version l) (version r), h)

-- Nothing but an upload, which is there exactly if version `v` is not `w`.
abbrev LocalOnly : Version → Version → Decision → Type 0
LocalOnly v w d =
    (d.download ≡ none) × (d.conflict ≡ none) × (is_some d.upload ≡ not (version_eq v w))

local_only :
    (p : Text) (b l r : Option FileEntry)
    → version r ≡ version b
    → LocalOnly (version l) (version b) (decision_at p (diff_entry p b l r empty_diff))
unfolding diff_entry action
local_only p b l r h = ground (arith, version_eq_iff (version r) (version b), ==_refl p)

module _ (prev refetched : Manifest) (hold_back : List Text) (local remote : Manifest)
    (p : Text) where
  abbrev next_base : Manifest
  next_base = checkpoint_manifest prev refetched hold_back

  -- After the checkpoint, a held-back path is decided as it was before it, so a failed transfer is
  -- tried again and a conflict shows up again.
  pub held_back_pending :
      contains hold_back p ≡ true
      → decision_at p (diff_manifests next_base local remote)
        ≡ decision_at p (diff_manifests prev local remote)
  held_back_pending h =
      decision_at-diff_manifests next_base local remote p
      ∙ rw (get-checkpoint_manifest prev p hold_back refetched, h)
          (sym (decision_at-diff_manifests prev local remote p))

  -- After the checkpoint, a path that has the re-fetched version on both sides needs no action,
  -- whether it is held back or not.
  pub synced_settled :
      version (get local p) ≡ version (get refetched p)
      → version (get remote p) ≡ version (get refetched p)
      → decision_at p (diff_manifests next_base local remote) ≡ none_at
  synced_settled hl hr =
      decision_at-diff_manifests next_base local remote p
      ∙ converged p (get next_base p) (get local p) (get remote p) (hl ∙ sym hr)

  -- A path that is not held back and that the server still has as re-fetched is a local change
  -- exactly if it left the re-fetched version, and is never downloaded or in conflict.
  pub next_diff_local :
      contains hold_back p ≡ false
      → version (get remote p) ≡ version (get refetched p)
      → ((decision_at p (diff_manifests next_base local remote)).download ≡ none)
        × ((decision_at p (diff_manifests next_base local remote)).conflict ≡ none)
        × (is_some (decision_at p (diff_manifests next_base local remote)).upload
            ≡ not (version_eq (version (get local p)) (version (get refetched p))))
  next_diff_local h hr =
      let kept : get next_base p ≡ get refetched p =
        get-checkpoint_manifest prev p hold_back refetched ∙ rw h in
      subst (LocalOnly (version (get local p)) (version (get refetched p)))
        (sym (decision_at-diff_manifests next_base local remote p))
        (rw kept (local_only p (get refetched p) (get local p) (get remote p) hr))

hold_back_entry-IsSorted :
    (prev next : Manifest) (q : Text)
    → IsSorted (keys next)
    → IsSorted (keys (hold_back_entry prev next q))
unfolding hold_back_entry
hold_back_entry-IsSorted prev next q s = elim (Option-cases (get prev q)) [
  | inl e ↦ rw (e, hold_back_entry) (remove-IsSorted q next s)
  | inr (entry, e) ↦ rw (e, hold_back_entry) (insert-IsSorted q entry next s)
]

-- The checkpoint is again a map in key order.
pub checkpoint_manifest-IsSorted :
    (hold_back : List Text) (prev refetched : Manifest)
    → IsSorted (keys refetched)
    → IsSorted (keys (checkpoint_manifest prev refetched hold_back))
unfolding checkpoint_manifest
checkpoint_manifest-IsSorted [] prev refetched s = s
checkpoint_manifest-IsSorted (q ∷ hold_back) prev refetched s =
    checkpoint_manifest-IsSorted hold_back prev (hold_back_entry prev refetched q)
      (hold_back_entry-IsSorted prev refetched q s)
