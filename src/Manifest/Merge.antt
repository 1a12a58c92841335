-- ===== src/Manifest/Merge.antt =====
-- The diff as a three-way merge: where it reports no conflict, its actions bring both sides to one
-- version, which keeps whatever change either side made.
use obsink.Base.{◌≡◌, ◌≢◌, ◌↔◌, refl, true, Option, none, some, arith}
use obsink.Base.{is_some, sym, ◌∙◌, ap, inl, inr, Bool-cases}
use obsink.Base.Ord.{==_iff, ==_refl, text_ord}
use obsink.Base.Text.{Text}
use obsink.Base.BTreeMap.{get}
use obsink.Types.{
  FileEntry, Manifest, SyncAction, SyncActionKind, upload, download, delete_local, delete_remote,
}
use obsink.Manifest.{
  empty_diff, Version, gone, present, version, version_eq, diff_entry, diff_manifests,
  local_or_tombstone, action, upload_kind, download_kind,
}
use obsink.Manifest.Lookup.{
  action_at, conflict_at, Decision, decision_at, own_decision, decision_at-diff_manifests,
}

-- The version that a side has after an action: an upload or a download writes the entry's file,
-- and a delete removes the file, on the side that the kind names.
abbrev pub remote_after : SyncActionKind → Option FileEntry → Version → Version
remote_after upload none v = v
remote_after upload (some e) v = present e.hash
remote_after delete_remote e v = gone
remote_after download e v = v
remote_after delete_local e v = v

abbrev pub local_after : SyncActionKind → Option FileEntry → Version → Version
local_after download none v = v
local_after download (some e) v = present e.hash
local_after delete_local e v = gone
local_after upload e v = v
local_after delete_remote e v = v

abbrev pub after_upload : Option SyncAction → Version → Version
after_upload none v = v
after_upload (some a) v = remote_after a.kind a.local v

abbrev pub after_download : Option SyncAction → Version → Version
after_download none v = v
after_download (some a) v = local_after a.kind a.remote v

pub version_eq_iff : (v w : Version) → (version_eq v w ≡ true) ↔ (v ≡ w)
unfolding version_eq
version_eq_iff gone gone = (λ h. refl, λ h. refl)
version_eq_iff gone (present b) = (λ h. cc, λ h. cc)
version_eq_iff (present a) gone = (λ h. cc, λ h. cc)
version_eq_iff (present a) (present b) = ground (arith, ==_iff a b)

version-tombstone : (e b : Option FileEntry) → version (some (local_or_tombstone e b)) ≡ version e
unfolding version local_or_tombstone
version-tombstone none b = refl
version-tombstone (some e) b = refl

-- An action of the kind that its version asks for brings that version.
remote_after-upload_kind :
    (e : Option FileEntry) (v : Version) → remote_after (upload_kind (version e)) e v ≡ version e
unfolding version
remote_after-upload_kind none v = refl
remote_after-upload_kind (some e) v = elim (Bool-cases e.deleted) [
  | inl h ↦ rw h refl
  | inr h ↦ rw h refl
]

local_after-download_kind :
    (e : Option FileEntry) (v : Version) → local_after (download_kind (version e)) e v ≡ version e
unfolding version
local_after-download_kind none v = refl
local_after-download_kind (some e) v = elim (Bool-cases e.deleted) [
  | inl h ↦ rw h refl
  | inr h ↦ rw h refl
]

-- One round of the loop, alone.
entry_merges :
    (p : Text) (b l r : Option FileEntry)
    → (decision_at p (diff_entry p b l r empty_diff)).conflict ≡ none
    → let v = after_upload (decision_at p (diff_entry p b l r empty_diff)).upload (version r) in
      (after_download (decision_at p (diff_entry p b l r empty_diff)).download (version l) ≡ v)
      × (version r ≡ version b → v ≡ version l)
      × (version l ≡ version b → v ≡ version r)
unfolding diff_entry action
entry_merges p b l r h = ground (
  arith,
  version_eq_iff (version l) (version b),
  version_eq_iff (version r) (version b),
  version_eq_iff (version l) (version r),
  ==_refl p,
  ap upload_kind (version-tombstone l b),
  ap download_kind (version-tombstone r b),
  version-tombstone l b,
  version-tombstone r b,
  remote_after-upload_kind (some (local_or_tombstone l b)) (version r),
  local_after-download_kind (some (local_or_tombstone r b)) (version l),
)

module _ (base local remote : Manifest) (p : Text) where
  abbrev vb : Version
  vb = version (get base p)

  abbrev vl : Version
  vl = version (get local p)

  abbrev vr : Version
  vr = version (get remote p)

  -- A path is in conflict exactly when both sides left the base version, for different versions.
  pub conflict_iff :
      (is_some (conflict_at p (diff_manifests base local remote).conflicts) ≡ true)
      ↔ ((vl ≢ vb) × (vr ≢ vb) × (vl ≢ vr))
  unfolding diff_entry action
  conflict_iff =
      rw (ap (λ (d : Decision). d.conflict) (decision_at-diff_manifests base local remote p)) (
        ground (arith, version_eq_iff vl vb, version_eq_iff vr vb, version_eq_iff vl vr, ==_refl p))

  -- Without a conflict the actions bring both sides to one version, which is the one that a side
  -- gave the path where the other side left it as it was.
  pub diff_merges :
      conflict_at p (diff_manifests base local remote).conflicts ≡ none
      → let v = after_upload (action_at p (diff_manifests base local remote).upload) vr in
        (after_download (action_at p (diff_manifests base local remote).download) vl ≡ v)
        × (vr ≡ vb → v ≡ vl)
        × (vl ≡ vb → v ≡ vr)
  diff_merges h =
      let decided = decision_at-diff_manifests base local remote p in
      let c : (own_decision base local remote p).conflict ≡ none =
        sym (ap (λ (d : Decision). d.conflict) decided) ∙ h in
      rw (ap (λ (d : Decision). d.upload) decided, ap (λ (d : Decision). d.download) decided)
        (entry_merges p (get base p) (get local p) (get remote p) c)
