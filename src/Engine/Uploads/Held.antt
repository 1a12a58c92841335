-- ===== src/Engine/Uploads/Held.antt =====
-- The paths that the uploads hold back.
use obsink.Base.{any-append, ◌≡◌, Bool, ◌||◌, Option, List, [], ◌∷◌, any, arith}
use obsink.Base.Ord.{◌==◌, nat_ord, text_ord}
use obsink.Base.Text.{Text}
use obsink.Base.BTreeMap.{contains, contains-insert_key}
use obsink.Types.{SyncAction, SyncFailure, Conflict, ServerConflict}
use obsink.Engine.{Device, Platform}
use obsink.Engine.Uploads.{
  upload_ranges, start_uploads, Uploading, fail, succeed, late_conflict, run_uploads, local_entry,
  late_remote,
}
use obsink.Engine.Uploads.Keeps.{run_batches-keeps}

abbrev pub failed_at : Text → List SyncFailure → Bool
failed_at q = any (λ (f : SyncFailure). f.path == q)

abbrev pub conflicting_at : Text → List Conflict → Bool
conflicting_at q = any (λ (c : Conflict). c.path == q)

module _ {W : Type 0} (q : Text) where
  -- Whether the uploads so far say that the path did not go through.
  abbrev pub blocked : Uploading W → Bool
  blocked s = failed_at q s.outcome.failures || conflicting_at q s.outcome.late_conflicts

  -- The held-back paths are those of `h`, the failed and the conflicting ones.
  abbrev pub Held : Bool → Uploading W → Type 0
  Held h s = contains s.hold_back q ≡ (h || blocked s)

  module _ (h : Bool) where
    fail-Held :
        (action : SyncAction) (message : Text) (fatal : Bool) (s : Uploading W)
        → Held h s
        → Held h (fail action message fatal s)
    unfolding fail
    fail-Held action message fatal s v = ground (
      arith,
      v,
      contains-insert_key action.path q s.hold_back,
      any-append (λ (f : SyncFailure). f.path == q) s.outcome.failures
          (record { path = action.path; kind = action.kind; error = message; fatal = fatal } ∷ []),
    )

    late-Held :
        (action : SyncAction) (server : Option ServerConflict) (s : Uploading W)
        → Held h s
        → Held h (late_conflict action server s)
    unfolding late_conflict
    late-Held action server s v = ground (
      arith,
      v,
      contains-insert_key action.path q s.hold_back,
      any-append (λ (c : Conflict). c.path == q) s.outcome.late_conflicts
          (record { path = action.path; local = local_entry action; remote = late_remote server }
            ∷ []),
    )

    succeed-Held : (s : Uploading W) → Held h s → Held h (succeed s)
    unfolding succeed
    succeed-Held s v = v

    on_net-Held :
        (s : Uploading W) (net : W)
        → Held h s
        → Held h (record s { device = record s.device { net = net } })
    on_net-Held s net v = v

  -- After the uploads a path is held back exactly if it was before or if an upload of it failed or
  -- met a conflict.
  pub run_uploads-Held :
      (p : Platform W) (uploads : List SyncAction) (hold_back : List Text) (d : Device W)
      → Held (contains hold_back q) (run_uploads p uploads hold_back d)
  unfolding run_uploads
  run_uploads-Held p uploads hold_back d =
      let h = contains hold_back q in
      run_batches-keeps (Held h) (fail-Held h) (late-Held h) (succeed-Held h) (on_net-Held h) p
        uploads (upload_ranges uploads) (start_uploads hold_back d) (ground arith)
