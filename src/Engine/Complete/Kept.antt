-- ===== src/Engine/Complete/Kept.antt =====
-- The checkpoint file changes only where a sync saves it, at its end.
use obsink.Base.{
  ℕ, ◌≡◌, Option, none, some, List, [], ◌∷◌, arith, inl, inr, Bool-cases, Option-cases,
}
use obsink.Base.Ord.{text_ord}
use obsink.Base.Text.{Text}
use obsink.Base.BTreeMap.{Map, get}
use obsink.Base.Result.{Result, ok, err}
use obsink.Base.Io.{Io, continue-keeps}
use obsink.Types.{
  Manifest, SyncAction, Conflict, SyncPlan, ConflictResolution, ConflictResolutionChoice,
  keep_local, keep_remote, keep_both, defer,
}
use obsink.SyncRules.{effective_choice}
use obsink.Client.{ManifestFetch, modified, not_modified, CryptoError}
use obsink.Engine.{
  SyncEngineError, Device, Saved, Platform, VaultConfig, online, write_file, decrypted, with_length,
  decrypt_and_write, delete_local_file, get_file, RemoteManifestCache,
}
use obsink.Engine.Remote.{
  conditional_fetch, use_fetch, refresh_cache, save_remote_cache, fetch_remote_manifest,
  report_checkpoint, load_remote_cache, etag_of, with_etag, without_cache,
}
use obsink.Engine.Uploads.{run_uploads, fail, late_conflict, succeed, start_uploads, upload_ranges}
use obsink.Engine.Uploads.Keeps.{run_batches-keeps}
use obsink.Engine.Complete.{
  Resolved, apply_keep_remote, write_conflict_copy, build_upload_action_for_path, apply_choice,
  resolve_conflict, resolve_conflicts, apply_resolutions, collect_choices,
}

module _ {W : Type 0} (p : Platform W) (c : Saved Manifest) where
  abbrev Kept : Device W → Type 0
  Kept d = d.checkpoint ≡ c

  -- What a computation keeps.
  abbrev Keeps {ℓ} : {A : Type ℓ} → Io SyncEngineError (Device W) A → Type 0
  Keeps m = (d : Device W) → Kept d → Kept (m d).1

  get_file-Keeps : (path : Text) → Keeps (get_file p path)
  unfolding get_file online
  get_file-Keeps path d h = h

  write_file-Keeps : (path bytes : Text) → Keeps (write_file p path bytes)
  unfolding write_file
  write_file-Keeps path bytes d h = ground (arith, h)

  with_length-Kept :
      (n : ℕ) (r : Result SyncEngineError (Unit {0}) × Device W)
      → Kept r.1
      → Kept (with_length p n r).1
  with_length-Kept n (ok u, d) h = h
  with_length-Kept n (err e, d) h = h

  decrypted-Keeps : (r : Result CryptoError Text) (path : Text) → Keeps (decrypted p r path)
  decrypted-Keeps (ok plain) path d h =
      with_length-Kept _ (write_file p path plain d) (write_file-Keeps path plain d h)
  decrypted-Keeps (err e) path d h = h

  decrypt_and_write-Keeps : (path blob : Text) → Keeps (decrypt_and_write p path blob)
  unfolding decrypt_and_write
  decrypt_and_write-Keeps path blob d h = decrypted-Keeps (p.decrypt blob) path d h

  delete_local_file-Keeps : (path : Text) → Keeps (delete_local_file p path)
  unfolding delete_local_file
  delete_local_file-Keeps path d h = ground (arith, h)

  apply_keep_remote-Keeps : (conflict : Conflict) → Keeps (apply_keep_remote p conflict)
  unfolding apply_keep_remote
  apply_keep_remote-Keeps conflict d h = elim (Bool-cases conflict.remote.deleted) [
    | inl gone ↦
        rw (gone, apply_keep_remote)
          (continue-keeps Kept (delete_local_file p conflict.path d) _
            (delete_local_file-Keeps conflict.path d h) (λ u e k. k))
    | inr there ↦
        rw (there, apply_keep_remote)
          (continue-keeps Kept (get_file p conflict.path d) _ (get_file-Keeps conflict.path d h)
            (decrypt_and_write-Keeps conflict.path))
  ]

  write_conflict_copy-Keeps : (conflict : Conflict) → Keeps (write_conflict_copy p conflict)
  unfolding write_conflict_copy
  write_conflict_copy-Keeps conflict d h =
      continue-keeps Kept (get_file p conflict.path d) _ (get_file-Keeps conflict.path d h)
        λ blob e k.
          continue-keeps Kept (decrypt_and_write p _ blob e) _ (decrypt_and_write-Keeps _ blob e k)
            λ len e' k'. k'

  build_upload-Keeps : (path : Text) → Keeps (build_upload_action_for_path p path)
  unfolding build_upload_action_for_path
  build_upload-Keeps path d h = elim (Option-cases (get d.files (p.directory_entry path))) [
    | inl e ↦ rw (e, build_upload_action_for_path) h
    | inr (file, e) ↦ rw (e, build_upload_action_for_path) h
  ]

  apply_choice-Keeps :
      (choice : ConflictResolutionChoice) (conflict : Conflict) (resolved : Resolved)
      → Keeps (apply_choice p choice conflict resolved)
  apply_choice-Keeps defer conflict resolved d h = h
  apply_choice-Keeps keep_local conflict resolved d h = h
  apply_choice-Keeps keep_remote conflict resolved d h =
      continue-keeps Kept (apply_keep_remote p conflict d) _ (apply_keep_remote-Keeps conflict d h)
        λ bytes e k. k
  apply_choice-Keeps keep_both conflict resolved d h =
      continue-keeps Kept (write_conflict_copy p conflict d) _
        (write_conflict_copy-Keeps conflict d h)
        λ path e k.
          continue-keeps Kept (build_upload_action_for_path p path e) _
            (build_upload-Keeps path e k) λ copy e' k'. k'

  resolve_conflict-Keeps :
      (choices : Map Text ConflictResolutionChoice) (conflict : Conflict) (resolved : Resolved)
      → Keeps (resolve_conflict p choices conflict resolved)
  unfolding resolve_conflict
  resolve_conflict-Keeps choices conflict resolved d h =
      elim (Option-cases (get choices conflict.path)) [
        | inl e ↦ rw (e, resolve_conflict) h
        | inr (choice, e) ↦
            rw (e, resolve_conflict)
              (apply_choice-Keeps (effective_choice choice conflict) conflict resolved d h)
      ]

  resolve_conflicts-Keeps :
      (choices : Map Text ConflictResolutionChoice) (conflicts : List Conflict)
      (resolved : Resolved)
      → Keeps (resolve_conflicts p choices conflicts resolved)
  unfolding resolve_conflicts
  resolve_conflicts-Keeps choices [] resolved d h = h
  resolve_conflicts-Keeps choices (conflict ∷ conflicts) resolved d h =
      continue-keeps Kept (resolve_conflict p choices conflict resolved d) _
        (resolve_conflict-Keeps choices conflict resolved d h)
        (resolve_conflicts-Keeps choices conflicts)

  pub apply_resolutions-Keeps :
      (plan : SyncPlan) (resolutions : List ConflictResolution)
      → Keeps (apply_resolutions p plan resolutions)
  unfolding apply_resolutions
  apply_resolutions-Keeps plan resolutions d h =
      resolve_conflicts-Keeps (collect_choices resolutions []) plan.conflicts _ d h

  pub run_uploads-Kept :
      (uploads : List SyncAction) (hold_back : List Text) (d : Device W)
      → Kept d
      → Kept (run_uploads p uploads hold_back d).device
  unfolding run_uploads fail late_conflict succeed
  run_uploads-Kept uploads hold_back d h =
      run_batches-keeps (λ s. Kept s.device) (λ action message fatal s k. k)
        (λ action server s k. k) (λ s k. k) (λ s net k. k) p uploads (upload_ranges uploads)
        (start_uploads hold_back d) h

  refresh_cache-Kept :
      (manifest : Manifest) (etag : Option Text) (d : Device W)
      → Kept d
      → Kept (refresh_cache p manifest etag d)
  unfolding refresh_cache save_remote_cache
  refresh_cache-Kept manifest none d h = h
  refresh_cache-Kept manifest (some etag) d h = ground (arith, h)

  without_cache-Keeps : (answer : ManifestFetch) → Keeps (without_cache p answer)
  without_cache-Keeps (modified manifest etag) d h = h
  without_cache-Keeps not_modified d h = h

  use_fetch-Keeps :
      (cached : Option RemoteManifestCache) (answer : ManifestFetch)
      → Keeps (use_fetch p cached answer)
  unfolding use_fetch conditional_fetch online
  use_fetch-Keeps (some cache) not_modified d h = h
  use_fetch-Keeps none not_modified d h =
      continue-keeps Kept (conditional_fetch p none d) _ h without_cache-Keeps
  use_fetch-Keeps none (modified manifest etag) d h = refresh_cache-Kept manifest etag d h
  use_fetch-Keeps (some cache) (modified manifest etag) d h = refresh_cache-Kept manifest etag d h

  pub fetch_remote_manifest-Keeps : Keeps (fetch_remote_manifest p)
  unfolding fetch_remote_manifest conditional_fetch online
  fetch_remote_manifest-Keeps d h =
      let cached = with_etag (load_remote_cache p d) in
      continue-keeps Kept (conditional_fetch p (etag_of cached) d) _ h (use_fetch-Keeps cached)

  pub report_checkpoint-Kept :
      (config : VaultConfig) (d : Device W) → Kept d → Kept (report_checkpoint p config d)
  unfolding report_checkpoint online
  report_checkpoint-Kept config d h = elim (Option-cases config.device_id) [
    | inl e ↦ rw (e, report_checkpoint) h
    | inr (device_id, e) ↦ rw (e, report_checkpoint) h
  ]
