-- ===== src/Engine/Complete/Held.antt =====
-- How far the checkpoint moves at the end of a sync.
use obsink.Base.{
  ◌≡◌, refl, ◌∙◌, ap, Bool, true, false, not, ◌&&◌, ◌||◌, none, List, [], ◌∷◌, ◌++◌, map, any,
  arith, inl, inr, Bool-cases, if◌then◌else◌, is_some,
}
use obsink.Base.Ord.{◌==◌, text_ord}
use obsink.Base.Text.{Text}
use obsink.Base.BTreeMap.{get, contains, contains-key_set, contains-append}
use obsink.Base.Result.{Result, ok, err}
use obsink.Base.Io.{continue}
use obsink.Types.{Manifest, Conflict, SyncPlan, SyncResult, SyncFailure, ConflictResolution}
use obsink.Manifest.{checkpoint_manifest}
use obsink.Manifest.Checkpoint.{get-checkpoint_manifest}
use obsink.Engine.{SyncEngineError, Device, Saved, saved, Platform, VaultConfig}
use obsink.Engine.Remote.{fetch_remote_manifest, checkpoint}
use obsink.Engine.Uploads.{run_uploads}
use obsink.Engine.Uploads.Held.{failed_at, conflicting_at, run_uploads-Held}
use obsink.Base.{any-append}
use obsink.Engine.Complete.{
  Resolved, apply_resolutions, finish_sync, complete_sync, any_fatal, save_checkpoint, sync_result,
  initial_hold_back, finished, with_error,
}
use obsink.Engine.Complete.Kept.{apply_resolutions-Keeps, run_uploads-Kept}
use obsink.Engine.Complete.Saves.{base_of, checkpoint-ok, checkpoint-err}

-- Whether the result says that the path did not go through.
abbrev pub pending_at : Text → SyncResult → Bool
pending_at q result = failed_at q result.failures || conflicting_at q result.conflicts

-- Whether the sync has no fatal failure and saved its checkpoint.
abbrev pub is_checkpointed : SyncResult → Bool
is_checkpointed result = not (any_fatal result.failures) && not (is_some result.checkpoint_error)

contains-map {ℓ} :
    {A : Type ℓ} (f : A → Text) (xs : List A) (q : Text)
    → contains (map f xs) q ≡ any (λ x. f x == q) xs
unfolding contains
contains-map f [] q = refl
contains-map f (x ∷ xs) q = ground (arith, contains-map f xs q)

module _ {W : Type 0} (p : Platform W) (plan : SyncPlan) (resolved : Resolved) where
  contains-initial_hold_back :
      (q : Text)
      → contains (initial_hold_back plan resolved) q
        ≡ (failed_at q plan.failures || conflicting_at q resolved.deferred)
  unfolding initial_hold_back
  contains-initial_hold_back q = ground (
    arith,
    contains-key_set
        (map (λ (f : SyncFailure). f.path) plan.failures
          ++ map (λ (c : Conflict). c.path) resolved.deferred)
        q,
    contains-append q (map (λ (f : SyncFailure). f.path) plan.failures)
        (map (λ (c : Conflict). c.path) resolved.deferred),
    contains-map (λ (f : SyncFailure). f.path) plan.failures q,
    contains-map (λ (c : Conflict). c.path) resolved.deferred q,
  )

  -- The paths held back are those that the result reports.
  hold_back_pending :
      (d : Device W) (q : Text)
      → let u = run_uploads p resolved.uploads (initial_hold_back plan resolved) d in
        contains u.hold_back q ≡ pending_at q (sync_result plan resolved u)
  unfolding sync_result
  hold_back_pending d q =
      let u = run_uploads p resolved.uploads (initial_hold_back plan resolved) d in
      ground (
        arith,
        contains-initial_hold_back q,
        run_uploads-Held q p resolved.uploads (initial_hold_back plan resolved) d,
        any-append (λ (f : SyncFailure). f.path == q) plan.failures u.outcome.failures,
        any-append (λ (c : Conflict). c.path == q) resolved.deferred u.outcome.late_conflicts,
      )

module _ {W : Type 0} (p : Platform W) (config : VaultConfig) where
  -- Either the checkpoint is saved, or it stays as it was.
  abbrev Advance : Device W → List Text → SyncResult × Device W → Type 0
  Advance d hold_back r =
      (is_checkpointed r.0 ≡ false → r.1.checkpoint ≡ d.checkpoint)
      × (is_checkpointed r.0 ≡ true
          → (refetched : Manifest) × ((fetch_remote_manifest p d).0 ≡ ok refetched)
            × (r.1.checkpoint
                ≡ saved (checkpoint_manifest (base_of d.checkpoint) refetched hold_back)))

  with_error-Advance :
      (result : SyncResult) (hold_back : List Text) (d : Device W)
      (r : Result SyncEngineError (Unit {0}) × Device W)
      → result.checkpoint_error ≡ none
      → any_fatal result.failures ≡ false
      → ((e : SyncEngineError) → r.0 ≡ err e → r.1.checkpoint ≡ d.checkpoint)
      → ((u : Unit {0})
          → r.0 ≡ ok u
          → (refetched : Manifest) × ((fetch_remote_manifest p d).0 ≡ ok refetched)
            × (r.1.checkpoint
                ≡ saved (checkpoint_manifest (base_of d.checkpoint) refetched hold_back)))
      → Advance d hold_back (with_error p result r.0, r.1)
  with_error-Advance result hold_back d (ok u, d') fresh calm kept moved =
      (λ h. absurd (ground (arith, h, fresh, calm)), λ h. moved u refl)
  with_error-Advance result hold_back d (err e, d') fresh calm kept moved =
      (λ h. kept e refl, λ h. absurd (ground (arith, h)))

  save_checkpoint-Advance :
      (result : SyncResult) (hold_back : List Text) (d : Device W)
      → result.checkpoint_error ≡ none
      → Advance d hold_back (save_checkpoint p config result hold_back d)
  unfolding save_checkpoint
  save_checkpoint-Advance result hold_back d fresh = elim (Bool-cases (any_fatal result.failures)) [
    | inl fatal ↦ rw (fatal, save_checkpoint) ((λ h. refl, λ h. absurd (ground (arith, h, fatal))))
    | inr calm ↦
        rw (calm, save_checkpoint)
          (with_error-Advance result hold_back d (checkpoint p config hold_back d) fresh calm
            (checkpoint-err p config hold_back d) (checkpoint-ok p config hold_back d))
  ]

  -- The result with its checkpoint error reports the same paths.
  save_checkpoint-pending :
      (result : SyncResult) (hold_back : List Text) (d : Device W) (q : Text)
      → pending_at q (save_checkpoint p config result hold_back d).0 ≡ pending_at q result
  unfolding save_checkpoint
  save_checkpoint-pending result hold_back d q = elim (Bool-cases (any_fatal result.failures)) [
    | inl fatal ↦ rw (fatal, save_checkpoint) refl
    | inr calm ↦ rw (calm, save_checkpoint) (same (checkpoint p config hold_back d).0)
  ]
    where
      same :
          (r : Result SyncEngineError (Unit {0}))
          → pending_at q (with_error p result r) ≡ pending_at q result
      same (ok u) = refl
      same (err e) = refl

  -- A sync that reaches its checkpoint keeps the old entry of exactly the paths that its result
  -- reports as failed or in conflict; every other path has the entry of the re-fetched manifest.
  pub finish_sync_checkpoint :
      (plan : SyncPlan) (resolved : Resolved) (d : Device W)
      → is_checkpointed (finish_sync p config plan resolved d).0 ≡ true
      → (refetched next : Manifest) × ((fetch_remote_manifest p
            (run_uploads p resolved.uploads (initial_hold_back plan resolved) d).device).0
          ≡ ok refetched)
        × ((finish_sync p config plan resolved d).1.checkpoint ≡ saved next)
        × ((q : Text)
            → get next q ≡ (
                if pending_at q (finish_sync p config plan resolved d).0
                then get (base_of d.checkpoint) q
                else get refetched q))
  unfolding finish_sync sync_result
  finish_sync_checkpoint plan resolved d h =
      let u = run_uploads p resolved.uploads (initial_hold_back plan resolved) d in
      let result = sync_result plan resolved u in
      let moved = (save_checkpoint-Advance result u.hold_back u.device refl).1 h in
      let kept =
        run_uploads-Kept p d.checkpoint resolved.uploads (initial_hold_back plan resolved) d refl in
      (
        moved.0,
        checkpoint_manifest (base_of d.checkpoint) moved.0 u.hold_back,
        moved.1,
        moved.2 ∙ ap (λ c. saved (checkpoint_manifest (base_of c) moved.0 u.hold_back)) kept,
        λ q.
            get-checkpoint_manifest (base_of d.checkpoint) q u.hold_back moved.0
            ∙ rw
                (
                  save_checkpoint-pending result u.hold_back u.device q,
                  hold_back_pending p plan resolved d q,
                )
                refl,
      )

  -- The result of a whole sync that ended without an error, checkpointed or not.
  abbrev pub advances : Result SyncEngineError SyncResult → Bool
  advances (ok result) = is_checkpointed result
  advances (err e) = false

  finished-kept :
      (plan : SyncPlan) (resolved : Resolved) (d : Device W)
      → advances (finished p config plan resolved d).0 ≡ false
      → (finished p config plan resolved d).1.checkpoint ≡ d.checkpoint
  unfolding finish_sync sync_result
  finished-kept plan resolved d h =
      let u = run_uploads p resolved.uploads (initial_hold_back plan resolved) d in
      (save_checkpoint-Advance (sync_result plan resolved u) u.hold_back u.device refl).0 h
      ∙ run_uploads-Kept p d.checkpoint resolved.uploads (initial_hold_back plan resolved) d refl

  resolved_kept :
      (plan : SyncPlan) (r : Result SyncEngineError Resolved × Device W) (c : Saved Manifest)
      → r.1.checkpoint ≡ c
      → advances (continue r (finished p config plan)).0 ≡ false
      → (continue r (finished p config plan)).1.checkpoint ≡ c
  resolved_kept plan (ok resolved, d) c e h = finished-kept plan resolved d h ∙ e
  resolved_kept plan (err error, d) c e h = e

  -- A sync that fails, meets a fatal failure or cannot save its checkpoint leaves the checkpoint as
  -- it was.
  pub complete_sync_kept :
      (plan : SyncPlan) (resolutions : List ConflictResolution) (d : Device W)
      → advances (complete_sync p config plan resolutions d).0 ≡ false
      → (complete_sync p config plan resolutions d).1.checkpoint ≡ d.checkpoint
  unfolding complete_sync
  complete_sync_kept plan resolutions d h =
      resolved_kept plan (apply_resolutions p plan resolutions d) d.checkpoint
        (apply_resolutions-Keeps p d.checkpoint plan resolutions d refl) h
