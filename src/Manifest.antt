-- ===== src/Manifest.antt =====
-- core/src/manifest.rs: the three-way diff of manifests and the checkpoint after a sync.
pub mod Lookup
pub mod Merge
pub mod Mirror
pub mod Checkpoint
use obsink.Base.{Bool, true, false, not, Option, none, some, List, [], ◌∷◌, ◌++◌, foldl}
use obsink.Base.{if◌then◌else◌, map_option, unwrap_or}
use obsink.Base.Ord.{◌==◌, text_ord}
use obsink.Base.Text.{Text}
use obsink.Base.BTreeMap.{get, insert, remove, keys, key_set}
use obsink.Types.{
  FileEntry, Manifest, SyncActionKind, upload, download, delete_local, delete_remote,
}
use obsink.Types.{SyncAction, Conflict}

pub record ManifestDiff : Type 0 where
  pub upload : List SyncAction
  pub download : List SyncAction
  pub conflicts : List Conflict

-- `ManifestDiff::default()`.
abbrev pub empty_diff : ManifestDiff
empty_diff = record { upload = []; download = []; conflicts = [] }

-- The identity of a path's content on one side.
pub data Version : Type 0 where
  gone : Version
  present : Text → Version

unfoldable pub version : Option FileEntry → Version
version none = gone
version (some entry) = if entry.deleted then gone else present entry.hash

-- The derived `PartialEq` of `Version`.
unfoldable pub version_eq : Version → Version → Bool
version_eq gone gone = true
version_eq (present a) (present b) = a == b
version_eq _ _ = false

unfoldable pub local_or_tombstone : Option FileEntry → Option FileEntry → FileEntry
local_or_tombstone (some entry) base = entry
local_or_tombstone none base = record {
  hash = unwrap_or (map_option (λ (e : FileEntry). e.hash) base) [];
  modified = unwrap_or (map_option (λ (e : FileEntry). e.modified) base) 0;
  size = unwrap_or (map_option (λ (e : FileEntry). e.size) base) 0;
  deleted = true;
  enc_path = unwrap_or (map_option (λ (e : FileEntry). e.enc_path) base) [];
}

unfoldable pub action : Text → SyncActionKind → Option FileEntry → Option FileEntry → SyncAction
action path kind local remote = record { path = path; kind = kind; local = local; remote = remote }

abbrev pub upload_kind : Version → SyncActionKind
upload_kind (present _) = upload
upload_kind gone = delete_remote

abbrev pub download_kind : Version → SyncActionKind
download_kind (present _) = download
download_kind gone = delete_local

abbrev push_upload : SyncAction → ManifestDiff → ManifestDiff
push_upload a result = record result { upload = result.upload ++ a ∷ [] }

abbrev push_download : SyncAction → ManifestDiff → ManifestDiff
push_download a result = record result { download = result.download ++ a ∷ [] }

abbrev push_conflict : Conflict → ManifestDiff → ManifestDiff
push_conflict c result = record result { conflicts = result.conflicts ++ c ∷ [] }

-- The body of the loop for one path, from the three entries at it.
unfoldable pub diff_entry :
    Text → Option FileEntry → Option FileEntry → Option FileEntry → ManifestDiff → ManifestDiff
diff_entry path base_entry local_entry remote_entry result =
    let base_version = version base_entry in
    let local_version = version local_entry in
    let remote_version = version remote_entry in
    let local_changed = not (version_eq local_version base_version) in
    let remote_changed = not (version_eq remote_version base_version) in
    if local_changed
    then if remote_changed
      then if version_eq local_version remote_version
        then result
        else push_conflict
            (record {
              path = path;
              local = local_or_tombstone local_entry base_entry;
              remote = local_or_tombstone remote_entry base_entry;
            })
            result
      else push_upload
          (action path (upload_kind local_version)
            (some (local_or_tombstone local_entry base_entry)) remote_entry)
          result
    else if remote_changed
    then push_download
        (action path (download_kind remote_version) local_entry
          (some (local_or_tombstone remote_entry base_entry)))
        result
    else result

module _ (base local remote : Manifest) where
  unfoldable pub diff_paths : List Text
  diff_paths = key_set (keys base ++ keys local ++ keys remote)

  unfoldable pub diff_step : ManifestDiff → Text → ManifestDiff
  unfolding diff_entry
  diff_step result path = diff_entry path (get base path) (get local path) (get remote path) result

  unfoldable pub diff_manifests : ManifestDiff
  unfolding diff_paths diff_step
  diff_manifests = foldl diff_step empty_diff diff_paths

-- One round of the loop over the held-back paths.
unfoldable pub hold_back_entry : Manifest → Manifest → Text → Manifest
hold_back_entry previous_base next path = elim (get previous_base path) [
  | some entry ↦ insert path entry next
  | none ↦ remove path next
]

unfoldable pub checkpoint_manifest : Manifest → Manifest → List Text → Manifest
unfolding hold_back_entry
checkpoint_manifest previous_base refetched hold_back =
    foldl (hold_back_entry previous_base) refetched hold_back
