-- ===== src/Engine/Uploads/Keeps.antt =====
-- What every step of the upload loop keeps, the loop keeps.
use obsink.Base.{
  ◌-◌, ◌≡◌, refl, ◌∙◌, Bool, false, ◌&&◌, Option, none, some, List, [], ◌∷◌, arith, inl, inr,
  Bool-cases, leb,
}
use obsink.Base.Ord.{◌==◌, nat_ord}
use obsink.Base.Text.{Text}
use obsink.Base.Result.{Result, ok, err}
use obsink.Hasher.{File}
use obsink.Types.{
  SyncAction, SyncActionKind, upload, download, delete_local, delete_remote, BatchOp,
  BatchOperationResult, ServerConflict,
}
use obsink.SyncRules.{Range}
use obsink.Client.{ApiError}
use obsink.Engine.{SyncEngineError, Device, Platform, read_file}
use obsink.Engine.Uploads.{
  Uploading, Prepared, fail, fail_all, succeed, late_conflict, read_result, read_results,
  prepare_batch_op, prepared_with, prepare_batch, answered, send_prepared, run_batch, run_batches,
  slice, put_read, batch_op,
}

-- Reading a file changes nothing.
module _ {W : Type 0} (p : Platform W) where
  pub read_file-device : (path : Text) (d : Device W) → (read_file p path d).1 ≡ d
  unfolding read_file
  read_file-device path d = ground arith

  put_read-device :
      (action : SyncAction) (r : Result SyncEngineError File × Device W)
      → (put_read p action r).1 ≡ r.1
  put_read-device action (ok file, d) = refl
  put_read-device action (err e, d) = refl

  batch_op-device :
      (kind : SyncActionKind) (action : SyncAction) (d : Device W)
      → (batch_op p kind action d).1 ≡ d
  batch_op-device upload action d =
      put_read-device action (read_file p action.path d) ∙ read_file-device action.path d
  batch_op-device download action d = refl
  batch_op-device delete_local action d = refl
  batch_op-device delete_remote action d = refl

  prepare_batch_op-device :
      (action : SyncAction) (d : Device W) → (prepare_batch_op p action d).1 ≡ d
  unfolding prepare_batch_op
  prepare_batch_op-device action d = batch_op-device action.kind action d

module _ {W : Type 0} (P : Uploading W → Type 0)
    (on_fail : (action : SyncAction) (message : Text) (fatal : Bool) (s : Uploading W)
      → P s
      → P (fail action message fatal s))
    (on_late : (action : SyncAction) (server : Option ServerConflict) (s : Uploading W)
      → P s
      → P (late_conflict action server s))
    (on_succeed : (s : Uploading W) → P s → P (succeed s))
    (on_net : (s : Uploading W) (net : W)
      → P s
      → P (record s { device = record s.device { net = net } })) where
  read_result-keeps :
      (action : SyncAction) (result : BatchOperationResult) (s : Uploading W)
      → P s
      → P (read_result action result s)
  unfolding read_result
  read_result-keeps action result s v =
      elim (Bool-cases (leb 200 result.status && leb result.status 299)) [
        | inl ok2 ↦ rw ok2 (on_succeed s v)
        | inr other ↦ elim (Bool-cases (result.status == 409)) [
          | inl conflicting ↦ rw (other, conflicting) (on_late action result.conflict s v)
          | inr failing ↦ rw (other, failing) (on_fail action _ _ s v)
        ]
      ]

  read_results-keeps :
      (members : List SyncAction) (results : List BatchOperationResult) (s : Uploading W)
      (stop : Bool)
      → P s
      → P (read_results members results s stop).0
  unfolding read_results
  read_results-keeps [] results s stop v = v
  read_results-keeps (action ∷ members) [] s stop v = v
  read_results-keeps (action ∷ members) (result ∷ results) s stop v =
      read_results-keeps members results (read_result action result s) _
        (read_result-keeps action result s v)

  pub fail_all-keeps :
      (members : List SyncAction) (message : Text) (fatal : Bool) (s : Uploading W)
      → P s
      → P (fail_all members message fatal s)
  unfolding fail_all
  fail_all-keeps [] message fatal s v = v
  fail_all-keeps (action ∷ members) message fatal s v =
      fail_all-keeps members message fatal (fail action message fatal s)
        (on_fail action message fatal s v)

  module _ (p : Platform W) where
    prepared_with-keeps :
        (action : SyncAction) (r : Result SyncEngineError (Option BatchOp) × Device W)
        (b : Prepared × Uploading W)
        → r.1 ≡ b.1.device
        → P b.1
        → P (prepared_with p action r b).1
    prepared_with-keeps action (ok (some op), d) b e v = rw e v
    prepared_with-keeps action (ok none, d) b e v = rw e (on_succeed b.1 v)
    prepared_with-keeps action (err error, d) b e v =
        rw e (on_fail action (p.error_text error) false b.1 v)

    prepare_batch-keeps :
        (actions : List SyncAction) (b : Prepared × Uploading W)
        → P b.1
        → P (prepare_batch p actions b).1
    unfolding prepare_batch
    prepare_batch-keeps [] b v = v
    prepare_batch-keeps (action ∷ actions) b v = prepare_batch-keeps actions _ (
        prepared_with-keeps action (prepare_batch_op p action b.1.device) b
          (prepare_batch_op-device p action b.1.device) v)

    answered-keeps :
        (members : List SyncAction) (r : Result ApiError (List BatchOperationResult))
        (s : Uploading W)
        → P s
        → P (answered p members r s).0
    answered-keeps members (ok results) s v = read_results-keeps members results s false v
    answered-keeps members (err e) s v = fail_all-keeps members (p.api_error_text e) _ s v

    send_prepared-keeps :
        (ops : List BatchOp) (members : List SyncAction) (s : Uploading W)
        → P s
        → P (send_prepared p ops members s).0
    unfolding send_prepared
    send_prepared-keeps [] members s v = v
    send_prepared-keeps (op ∷ ops) members s v = answered-keeps members _ _ (on_net s _ v)

    run_batch-keeps :
        (actions : List SyncAction) (s : Uploading W) → P s → P (run_batch p actions s).0
    unfolding run_batch
    run_batch-keeps actions s v =
        let b = prepare_batch p actions (record { ops = []; members = [] }, s) in
        send_prepared-keeps b.0.ops b.0.members b.1
          (prepare_batch-keeps actions (record { ops = []; members = [] }, s) v)

    pub run_batches-keeps :
        (uploads : List SyncAction) (ranges : List Range) (s : Uploading W)
        → P s
        → P (run_batches p uploads ranges s)
    unfolding run_batches
    run_batches-keeps uploads [] s v = v
    run_batches-keeps uploads (range ∷ ranges) s v =
        let b = run_batch p (slice range.start (range.end - range.start) uploads) s in
        let next = run_batch-keeps (slice range.start _ uploads) s v in
        elim (Bool-cases b.1) [
          | inl stop ↦ rw (stop, run_batches) next
          | inr more ↦ rw (more, run_batches) (run_batches-keeps uploads ranges b.0 next)
        ]
