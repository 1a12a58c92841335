-- ===== src/Engine/Complete.antt =====
-- core/src/sync_engine.rs: the second half of a sync, after the caller chose for every conflict.
pub mod Choices
pub mod Kept
pub mod Saves
pub mod Held
use obsink.Base.{
  ℕ, Bool, true, false, not, ◌&&◌, Option, none, some, List, [], ◌∷◌, ◌++◌, any, length, map,
  if◌then◌else◌,
}
use obsink.Base.Ord.{◌==◌, text_ord}
use obsink.Base.Text.{Text}
use obsink.Base.BTreeMap.{Map, get, insert, key_set}
use obsink.Base.Result.{Result, ok, err}
use obsink.Base.Io.{Io, ◌>>=◌, ◌>>◌, return, lift}
use obsink.Types.{
  FileEntry, SyncAction, upload, Conflict, SyncFailure, SyncPlan, SyncResult, ConflictResolution,
  ConflictResolutionChoice, keep_local, keep_remote, keep_both, defer,
}
use obsink.SyncRules.{effective_choice, conflict_to_upload}
use obsink.SyncRules.Copies.{conflict_copy_path}
use obsink.Hasher.{File, HasherError, hash_file}
use obsink.Engine.{
  SyncEngineError, io, hasher, missing_resolution, Device, Platform, VaultConfig, FileOp, read,
  delete_local_file, decrypt_and_write, get_file,
}
use obsink.Engine.Remote.{checkpoint}
use obsink.Engine.Uploads.{Uploading, run_uploads}

pub record Resolved : Type 0 where
  pub uploads : List SyncAction
  pub deferred : List Conflict

-- `collect::<BTreeMap<_, _>>()`: the last resolution of a path counts.
unfoldable pub collect_choices :
    List ConflictResolution → Map Text ConflictResolutionChoice → Map Text ConflictResolutionChoice
collect_choices [] choices = choices
collect_choices (r ∷ resolutions) choices =
    collect_choices resolutions (insert r.path r.choice choices)

abbrev put_upload : SyncAction → Resolved → Resolved
put_upload action resolved = record resolved { uploads = resolved.uploads ++ action ∷ [] }

unfoldable pub upload_of : Text → File → Text → SyncAction
upload_of path file hash = record {
  path = path;
  kind = upload;
  local = some (record {
    hash = hash;
    modified = file.mtime_secs;
    size = length file.bytes;
    deleted = false;
    enc_path = [];
  });
  remote = none;
}

abbrev pub upload_action : Text → File → Result HasherError Text → Result SyncEngineError SyncAction
upload_action path file (ok hash) =
    if file.before_epoch then err (io path) else ok (upload_of path file hash)
upload_action path file (err e) = err (hasher e)

-- Paths whose checkpoint entry must not advance, before the uploads.
unfoldable pub initial_hold_back : SyncPlan → Resolved → List Text
initial_hold_back plan resolved = key_set (
    map (λ (f : SyncFailure). f.path) plan.failures
    ++ map (λ (c : Conflict). c.path) resolved.deferred)

unfoldable pub any_fatal : List SyncFailure → Bool
any_fatal = any (λ (f : SyncFailure). f.fatal)

-- The result before the checkpoint.
unfoldable pub sync_result : {W : Type 0} → SyncPlan → Resolved → Uploading W → SyncResult
sync_result plan resolved uploads = record {
  upload = resolved.uploads;
  download = plan.download;
  conflicts = resolved.deferred ++ uploads.outcome.late_conflicts;
  failures = plan.failures ++ uploads.outcome.failures;
  checkpoint_error = none;
}

module _ {W : Type 0} (p : Platform W) where
  unfoldable pub apply_keep_remote : Conflict → Io SyncEngineError (Device W) ℕ
  unfolding delete_local_file get_file decrypt_and_write
  apply_keep_remote conflict =
      if conflict.remote.deleted
      then delete_local_file p conflict.path >> return 0
      else get_file p conflict.path >>= decrypt_and_write p conflict.path

  unfoldable pub write_conflict_copy : Conflict → Io SyncEngineError (Device W) Text
  unfolding get_file decrypt_and_write conflict_copy_path
  write_conflict_copy conflict = do
    blob ← get_file p conflict.path
    len ← decrypt_and_write p (conflict_copy_path conflict.path) blob
    return (conflict_copy_path conflict.path)

  unfoldable pub build_upload_action_for_path : Text → Io SyncEngineError (Device W) SyncAction
  unfolding hash_file upload_of
  build_upload_action_for_path path d = elim (get d.files (p.directory_entry path)) [
    | none ↦ (err (io path), d)
    | some file ↦ (
      upload_action path file (hash_file p.content_hmac (λ at. p.fails d (read at)) path file),
      d,
    )
  ]

  abbrev pub apply_choice :
      ConflictResolutionChoice → Conflict → Resolved → Io SyncEngineError (Device W) Resolved
  apply_choice defer conflict resolved =
      return (record resolved { deferred = resolved.deferred ++ conflict ∷ [] })
  apply_choice keep_local conflict resolved =
      return (put_upload (conflict_to_upload conflict) resolved)
  apply_choice keep_remote conflict resolved =
      apply_keep_remote conflict >>= λ bytes. return resolved
  apply_choice keep_both conflict resolved = do
    duplicate_path ← write_conflict_copy conflict
    copy ← build_upload_action_for_path duplicate_path
    return (put_upload copy (put_upload (conflict_to_upload conflict) resolved))

  unfoldable pub resolve_conflict :
      Map Text ConflictResolutionChoice
      → Conflict
      → Resolved
      → Io SyncEngineError (Device W) Resolved
  unfolding effective_choice apply_keep_remote write_conflict_copy build_upload_action_for_path
  resolve_conflict choices conflict resolved = elim (get choices conflict.path) [
    | none ↦ lift (err (missing_resolution conflict.path))
    | some choice ↦ apply_choice (effective_choice choice conflict) conflict resolved
  ]

  unfoldable pub resolve_conflicts :
      Map Text ConflictResolutionChoice
      → List Conflict
      → Resolved
      → Io SyncEngineError (Device W) Resolved
  unfolding resolve_conflict
  resolve_conflicts choices [] resolved = return resolved
  resolve_conflicts choices (conflict ∷ conflicts) resolved =
      resolve_conflict choices conflict resolved >>= resolve_conflicts choices conflicts

  unfoldable pub apply_resolutions :
      SyncPlan → List ConflictResolution → Io SyncEngineError (Device W) Resolved
  unfolding resolve_conflicts collect_choices
  apply_resolutions plan resolutions =
      resolve_conflicts (collect_choices resolutions []) plan.conflicts
        (record { uploads = plan.upload; deferred = [] })

  abbrev pub with_error : SyncResult → Result SyncEngineError (Unit {0}) → SyncResult
  with_error result (ok u) = result
  with_error result (err e) = record result { checkpoint_error = some (p.error_text e) }

  unfoldable pub save_checkpoint :
      VaultConfig → SyncResult → List Text → Device W → SyncResult × Device W
  unfolding any_fatal checkpoint
  save_checkpoint config result hold_back d = elim (any_fatal result.failures) [
    | true ↦ (result, d)
    | false ↦ let (answer, d') = checkpoint p config hold_back d in (with_error result answer, d')
  ]

  unfoldable pub finish_sync : VaultConfig → SyncPlan → Resolved → Device W → SyncResult × Device W
  unfolding initial_hold_back run_uploads sync_result save_checkpoint
  finish_sync config plan resolved d =
      let uploads = run_uploads p resolved.uploads (initial_hold_back plan resolved) d in
      save_checkpoint config (sync_result plan resolved uploads) uploads.hold_back uploads.device

  abbrev pub finished : VaultConfig → SyncPlan → Resolved → Io SyncEngineError (Device W) SyncResult
  finished config plan resolved d =
      let (result, d') = finish_sync config plan resolved d in (ok result, d')

  unfoldable pub complete_sync :
      VaultConfig → SyncPlan → List ConflictResolution → Io SyncEngineError (Device W) SyncResult
  unfolding apply_resolutions finish_sync
  complete_sync config plan resolutions =
      apply_resolutions plan resolutions >>= finished config plan
