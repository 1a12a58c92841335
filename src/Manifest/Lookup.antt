-- ===== src/Manifest/Lookup.antt =====
-- The diff read path by path: the loop over all paths decides each path by its own three entries.
use obsink.Base.{
  ◌≡◌, refl, ap, ◌∙◌, false, ◌||◌, Option, none, some, List, [], ◌∷◌, ◌++◌, foldl, arith,
}
use obsink.Base.{if◌then◌else◌, find, find-append, Bool-cases, inl, inr, is_some}
use obsink.Base.Ord.{◌==◌, ==_iff, text_ord}
use obsink.Base.Text.{Text}
use obsink.Base.BTreeMap.{get, keys, contains, contains-append, contains-keys, contains-key_set}
use obsink.Types.{FileEntry, Manifest, SyncAction, Conflict}
use obsink.Manifest.{
  ManifestDiff, empty_diff, version, version_eq, diff_entry, diff_step, diff_paths, diff_manifests,
  action,
}

-- The action for a path in a list of actions.
abbrev pub action_at : Text → List SyncAction → Option SyncAction
action_at p = find (λ (a : SyncAction). a.path == p)

abbrev pub conflict_at : Text → List Conflict → Option Conflict
conflict_at p = find (λ (c : Conflict). c.path == p)

-- What a diff says of one path.
pub record Decision : Type 0 where
  pub upload : Option SyncAction
  pub download : Option SyncAction
  pub conflict : Option Conflict

abbrev pub decision_at : Text → ManifestDiff → Decision
decision_at p d = record {
  upload = action_at p d.upload;
  download = action_at p d.download;
  conflict = conflict_at p d.conflicts;
}

abbrev pub none_at : Decision
none_at = record { upload = none; download = none; conflict = none }

abbrev or_first {ℓ} : {A : Type ℓ} → Option A → Option A → Option A
or_first none b = b
or_first (some a) b = some a

abbrev pub combine : Decision → Decision → Decision
combine d e = record {
  upload = or_first d.upload e.upload;
  download = or_first d.download e.download;
  conflict = or_first d.conflict e.conflict;
}

action_at-push :
    (p : Text) (xs : List SyncAction) (a : SyncAction)
    → action_at p (xs ++ a ∷ []) ≡ or_first (action_at p xs) (if a.path == p then some a else none)
action_at-push p xs a = ground (arith, find-append (λ (x : SyncAction). x.path == p) xs (a ∷ []))

conflict_at-push :
    (p : Text) (xs : List Conflict) (c : Conflict)
    → conflict_at p (xs ++ c ∷ [])
      ≡ or_first (conflict_at p xs) (if c.path == p then some c else none)
conflict_at-push p xs c = ground (arith, find-append (λ (x : Conflict). x.path == p) xs (c ∷ []))

or_first-none {ℓ} : {A : Type ℓ} (o : Option A) → or_first o none ≡ o
or_first-none none = refl
or_first-none (some a) = refl

module _ (p q : Text) (b l r : Option FileEntry) where
  pub decision_at-diff_entry :
      (d : ManifestDiff)
      → decision_at p (diff_entry q b l r d)
        ≡ combine (decision_at p d) (decision_at p (diff_entry q b l r empty_diff))
  unfolding diff_entry action
  decision_at-diff_entry d = elim (Bool-cases (version_eq (version l) (version b))) [
    | inl lsame ↦ elim (Bool-cases (version_eq (version r) (version b))) [
      | inl rsame ↦ rw (lsame, rsame) (simp or_first-none)
      | inr rdiff ↦ rw (lsame, rdiff) (simp (action_at-push, or_first-none))
    ]
    | inr ldiff ↦ elim (Bool-cases (version_eq (version r) (version b))) [
      | inl rsame ↦ rw (ldiff, rsame) (simp (action_at-push, or_first-none))
      | inr rdiff ↦ elim (Bool-cases (version_eq (version l) (version r))) [
        | inl same ↦ rw (ldiff, rdiff, same) (simp or_first-none)
        | inr differ ↦ rw (ldiff, rdiff, differ) (simp (conflict_at-push, or_first-none))
      ]
    ]
  ]

  -- A round for another path says nothing of `p`.
  pub decision_at-diff_entry_ne :
      (q == p) ≡ false → decision_at p (diff_entry q b l r empty_diff) ≡ none_at
  unfolding diff_entry action
  decision_at-diff_entry_ne h = ground arith

-- A path that no side knows is not in the diff.
diff_entry-absent : (p : Text) → diff_entry p none none none empty_diff ≡ empty_diff
unfolding diff_entry version version_eq
diff_entry-absent p = refl

combine-none : (d : Decision) → combine d none_at ≡ d
combine-none d = ground arith

none-combine : (d : Decision) → combine none_at d ≡ d
none-combine d = refl

combine_self : (d e : Decision) → combine (combine d e) e ≡ combine d e
combine_self d e = ground arith

module _ (base local remote : Manifest) (p : Text) where
  -- The decision of the round for `p`.
  abbrev pub own_decision : Decision
  own_decision = decision_at p (diff_entry p (get base p) (get local p) (get remote p) empty_diff)

  decision_at-diff_step :
      (d : ManifestDiff) (q : Text)
      → decision_at p (diff_step base local remote d q)
        ≡ (if q == p then combine (decision_at p d) own_decision else decision_at p d)
  unfolding diff_step
  decision_at-diff_step d q = elim (Bool-cases (q == p)) [
    | inl same ↦ let e = (==_iff q p).0 same in rw same (rw e (decision_at-diff_entry p p _ _ _ d))
    | inr other ↦ rw other (
        decision_at-diff_entry p q _ _ _ d
        ∙ ap (combine (decision_at p d))
            (decision_at-diff_entry_ne p q (get base q) (get local q) (get remote q) other)
        ∙ combine-none (decision_at p d))
  ]

  decision_at-loop :
      (qs : List Text) (d : ManifestDiff)
      → decision_at p (foldl (diff_step base local remote) d qs)
        ≡ (if contains qs p then combine (decision_at p d) own_decision else decision_at p d)
  unfolding contains
  decision_at-loop [] d = refl
  decision_at-loop (q ∷ qs) d = ground (
    arith,
    decision_at-loop qs (diff_step base local remote d q),
    decision_at-diff_step d q,
    combine_self (decision_at p d) own_decision,
  )

  contains-diff_paths :
      contains (diff_paths base local remote) p
      ≡ (is_some (get base p) || (is_some (get local p) || is_some (get remote p)))
  unfolding diff_paths
  contains-diff_paths =
      contains-key_set (keys base ++ keys local ++ keys remote) p
      ∙ ground (
        arith,
        contains-append p (keys base ++ keys local) (keys remote),
        contains-append p (keys base) (keys local),
        contains-keys base p,
        contains-keys local p,
        contains-keys remote p,
      )

  unknown_path :
      (is_some (get base p) || (is_some (get local p) || is_some (get remote p))) ≡ false
      → own_decision ≡ none_at
  unknown_path h =
      let eb : get base p ≡ none = ground arith in
      let el : get local p ≡ none = ground arith in
      let er : get remote p ≡ none = ground arith in rw (eb, el, er) (rw (diff_entry-absent p))

  -- The loop decides each path by its own three entries.
  pub decision_at-diff_manifests : decision_at p (diff_manifests base local remote) ≡ own_decision
  unfolding diff_manifests
  decision_at-diff_manifests =
      decision_at-loop (diff_paths base local remote) empty_diff
      ∙ ground (arith, contains-diff_paths, unknown_path, none-combine own_decision)
