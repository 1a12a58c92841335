-- ===== src/Tests/Sync.antt =====
-- The theorems on the diff, the checkpoint and the batches, at concrete manifests.
use obsink.Base.{
  ◌++◌, ◌≤◌, ℕ, ◌^◌, ◌<◌, ◌≡◌, ◌≢◌, ◌↔◌, refl, true, false, none, List, [], ◌∷◌, arith, All,
  is_some, not,
}
use obsink.Base.Ord.{text_ord}
use obsink.Base.Text.{Text, text}
use obsink.Base.BTreeMap.{get, contains, keys, key_set}
use obsink.Ignore.{defaults, with_extra, is_ignored}
use obsink.Ignore.Always.{state_ignored}
use obsink.Pacing.{Backoff, backoff_wait, new}
use obsink.Pacing.Waits.{backoff_grows}
use obsink.Types.{FileEntry, Manifest}
use obsink.Manifest.{
  version, version_eq, diff_manifests, diff_paths, diff_step, diff_entry, checkpoint_manifest,
}
use obsink.Manifest.Lookup.{conflict_at, action_at, decision_at}
use obsink.Manifest.Merge.{conflict_iff, diff_merges, after_upload, after_download}
use obsink.Manifest.Mirror.{mirror, diff_manifests-mirror}
use obsink.Manifest.Checkpoint.{held_back_pending, next_diff_local}
use obsink.SyncRules.{chunk_uploads}
use obsink.SyncRules.Batches.{Within, prefix_bytes, chunk_uploads-Within}

abbrev entry : Text → FileEntry
entry hash = record { hash = hash; modified = 1; size = 5; deleted = false; enc_path = text "e" }

abbrev before : Manifest
before = (text "a", entry (text "h1")) ∷ (text "b", entry (text "h2")) ∷ []

abbrev here : Manifest
here = (text "a", entry (text "h3")) ∷ (text "b", entry (text "h4")) ∷ []

abbrev there : Manifest
there =
    (text "a", entry (text "h1"))
    ∷ (text "b", entry (text "h5"))
    ∷ (text "c", entry (text "h6"))
    ∷ []

conflict_iff_example :
    (is_some (conflict_at (text "b") (diff_manifests before here there).conflicts) ≡ true) ↔ (
      (version (get here (text "b")) ≢ version (get before (text "b")))
      × (version (get there (text "b")) ≢ version (get before (text "b")))
      × (version (get here (text "b")) ≢ version (get there (text "b"))))
conflict_iff_example = conflict_iff before here there (text "b")

diff_merges_example :
    let v =
      after_upload
        (action_at (text "a") (diff_manifests before here there).upload)
        (version (get there (text "a"))) in
    (after_download
        (action_at (text "a") (diff_manifests before here there).download)
        (version (get here (text "a")))
      ≡ v)
    × (version (get there (text "a")) ≡ version (get before (text "a"))
        → v ≡ version (get here (text "a")))
    × (version (get here (text "a")) ≡ version (get before (text "a"))
        → v ≡ version (get there (text "a")))
unfolding diff_manifests diff_paths diff_step diff_entry version version_eq text_ord key_set keys
    get
diff_merges_example = diff_merges before here there (text "a") refl

mirror_example : diff_manifests before there here ≡ mirror (diff_manifests before here there)
mirror_example = diff_manifests-mirror before here there

held_back_example :
    decision_at
      (text "b")
      (diff_manifests (checkpoint_manifest before there (text "b" ∷ [])) here there)
    ≡ decision_at (text "b") (diff_manifests before here there)
unfolding contains text_ord
held_back_example = held_back_pending before there (text "b" ∷ []) here there (text "b") refl

abbrev sizes : List ℕ
sizes = 5 ∷ 40000000 ∷ 7 ∷ []

small : All (λ size. size < 2 ^ 63) sizes
small = omega arith

chunk_uploads-Within_example : All (Within (prefix_bytes sizes)) (chunk_uploads sizes)
chunk_uploads-Within_example = chunk_uploads-Within sizes small

next_diff_local_example :
    ((decision_at
        (text "a")
        (diff_manifests (checkpoint_manifest before there []) here there)).download
      ≡ none)
    × ((decision_at
          (text "a")
          (diff_manifests (checkpoint_manifest before there []) here there)).conflict
        ≡ none)
    × (is_some
          (decision_at
            (text "a")
            (diff_manifests (checkpoint_manifest before there []) here there)).upload
        ≡ not (version_eq (version (get here (text "a"))) (version (get there (text "a")))))
unfolding contains
next_diff_local_example = next_diff_local before there [] here there (text "a") refl refl

state_ignored_example :
    is_ignored (with_extra defaults (text "notes/" ∷ [])) (text ".obsink/" ++ text "manifest.json")
    ≡ true
state_ignored_example = state_ignored (text "notes/" ∷ []) (text "manifest.json")

backoff_grows_example :
    (backoff_wait 1000 60000 3 ≤ backoff_wait 1000 60000 4) × (backoff_wait 1000 60000 3 ≤ 60000)
backoff_grows_example = backoff_grows 1000 60000 3

abbrev tired : Backoff
tired = record (new 1000 60000) { failures = 9 }
