-- ===== src/Manifest/Mirror.antt =====
-- Which side is called local does not matter: exchanging the sides exchanges the actions.
use obsink.Base.{◌≡◌, refl, Option, some, List, [], ◌∷◌, ◌++◌, map, foldl, arith}
use obsink.Base.Ord.{==_comm, text_ord}
use obsink.Base.Text.{Text}
use obsink.Base.BTreeMap.{get, keys, contains-append, contains-key_set}
use obsink.Base.BTreeMap.Order.{set_ext, key_set-IsSorted}
use obsink.Types.{
  FileEntry, Manifest, SyncActionKind, upload, download, delete_local, delete_remote, SyncAction,
  Conflict,
}
use obsink.Manifest.{
  ManifestDiff, empty_diff, Version, gone, present, version, version_eq, diff_entry, diff_paths,
  diff_step, diff_manifests, action, upload_kind, download_kind, local_or_tombstone,
}

abbrev mirror_kind : SyncActionKind → SyncActionKind
mirror_kind upload = download
mirror_kind download = upload
mirror_kind delete_local = delete_remote
mirror_kind delete_remote = delete_local

abbrev mirror_action : SyncAction → SyncAction
mirror_action a = record {
  path = a.path;
  kind = mirror_kind a.kind;
  local = a.remote;
  remote = a.local;
}

abbrev mirror_conflict : Conflict → Conflict
mirror_conflict c = record { path = c.path; local = c.remote; remote = c.local }

-- The diff as the other side would see it.
abbrev pub mirror : ManifestDiff → ManifestDiff
mirror d = record {
  upload = map mirror_action d.download;
  download = map mirror_action d.upload;
  conflicts = map mirror_conflict d.conflicts;
}

version_eq_comm : (v w : Version) → version_eq v w ≡ version_eq w v
unfolding version_eq
version_eq_comm gone gone = refl
version_eq_comm gone (present b) = refl
version_eq_comm (present a) gone = refl
version_eq_comm (present a) (present b) = ==_comm a b

map-push {ℓ κ} :
    {A : Type ℓ} {B : Type κ} (f : A → B) (xs : List A) (a : A)
    → map f (xs ++ a ∷ []) ≡ map f xs ++ f a ∷ []
map-push f [] a = refl
map-push f (x ∷ xs) a = rw (map-push f xs a)

upload_kind-mirror : (v : Version) → mirror_kind (download_kind v) ≡ upload_kind v
upload_kind-mirror gone = refl
upload_kind-mirror (present h) = refl

download_kind-mirror : (v : Version) → mirror_kind (upload_kind v) ≡ download_kind v
download_kind-mirror gone = refl
download_kind-mirror (present h) = refl

diff_entry-mirror :
    (p : Text) (b l r : Option FileEntry) (d : ManifestDiff)
    → diff_entry p b r l (mirror d) ≡ mirror (diff_entry p b l r d)
unfolding diff_entry action
diff_entry-mirror p b l r d = ground (
  arith,
  version_eq_comm (version l) (version r),
  upload_kind-mirror (version r),
  download_kind-mirror (version l),
  map-push mirror_action d.download
      (action p (download_kind (version r)) l (some (local_or_tombstone r b))),
  map-push mirror_action d.upload
      (action p (upload_kind (version l)) (some (local_or_tombstone l b)) r),
  map-push mirror_conflict d.conflicts
      (record { path = p; local = local_or_tombstone l b; remote = local_or_tombstone r b }),
)

module _ (base local remote : Manifest) where
  diff_paths-mirror : diff_paths base remote local ≡ diff_paths base local remote
  unfolding diff_paths
  diff_paths-mirror =
      set_ext _ _ (key_set-IsSorted (keys base ++ keys remote ++ keys local))
        (key_set-IsSorted (keys base ++ keys local ++ keys remote))
        λ k. ground (
          arith,
          contains-key_set (keys base ++ keys remote ++ keys local) k,
          contains-key_set (keys base ++ keys local ++ keys remote) k,
          contains-append k (keys base ++ keys remote) (keys local),
          contains-append k (keys base ++ keys local) (keys remote),
          contains-append k (keys base) (keys local),
          contains-append k (keys base) (keys remote),
        )

  loop-mirror :
      (ps : List Text) (d : ManifestDiff)
      → foldl (diff_step base remote local) (mirror d) ps
        ≡ mirror (foldl (diff_step base local remote) d ps)
  unfolding diff_step
  loop-mirror [] d = refl
  loop-mirror (p ∷ ps) d =
      rw (diff_entry-mirror p (get base p) (get local p) (get remote p) d) (loop-mirror ps _)

  -- Exchanging the local and the remote manifest turns uploads into downloads, remote deletes into
  -- local deletes, and back, and exchanges the sides of every conflict.
  pub diff_manifests-mirror :
      diff_manifests base remote local ≡ mirror (diff_manifests base local remote)
  unfolding diff_manifests
  diff_manifests-mirror =
      rw diff_paths-mirror (loop-mirror (diff_paths base local remote) empty_diff)
