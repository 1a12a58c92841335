-- ===== src/Engine/Uploads.antt =====
-- core/src/sync_engine.rs: the batched uploads of a sync.
pub mod Keeps
pub mod Held
pub mod Fatal
pub mod Counted
pub mod Account
pub mod Sorted
use obsink.Base.{
  ℕ, zero, suc, ◌+◌, ◌-◌, Bool, true, false, not, ◌&&◌, ◌||◌, Option, none, some, List, [], ◌∷◌,
  ◌++◌, leb, length, if◌then◌else◌, get_elem?, map,
}
use obsink.Base.Ord.{◌==◌, nat_ord, text_ord}
use obsink.Base.Text.{Text, text}
use obsink.Base.Text.Decimal.{decimal}
use obsink.Base.BTreeMap.{insert_key}
use obsink.Base.Result.{Result, ok, err}
use obsink.Base.Io.{Io}
use obsink.Types.{
  FileEntry, default_entry, SyncAction, SyncActionKind, upload, download, delete_local,
  delete_remote, SyncFailure, Conflict, BatchOp, put, delete, BatchOperationResult, ServerConflict,
}
use obsink.SyncRules.{Range, chunk_uploads, parent_hash}
use obsink.Client
use obsink.Hasher.{File}
use obsink.Engine.{
  SyncEngineError, crypto, api, Device, Platform, is_fatal_api_error, is_fatal_status, read_file,
}

pub record UploadOutcome : Type 0 where
  pub succeeded : ℕ
  pub failures : List SyncFailure
  pub late_conflicts : List Conflict

-- What the upload loop changes: the outcome, the caller's set and the device.
pub record Uploading (W : Type 0) : Type 0 where
  pub outcome : UploadOutcome
  pub hold_back : List Text
  pub device : Device W

-- The operations of a batch, and the actions they are for.
pub record Prepared : Type 0 where
  pub ops : List BatchOp
  pub members : List SyncAction

unfoldable pub local_hash : SyncAction → Text
local_hash action = elim action.local [ none ↦ [] | some entry ↦ entry.hash ]

unfoldable pub local_size : SyncAction → ℕ
local_size action = elim action.local [ none ↦ 0 | some entry ↦ entry.size ]

unfoldable pub local_entry : SyncAction → FileEntry
local_entry action = elim action.local [ none ↦ default_entry | some entry ↦ entry ]

-- The server's entry in a 409, or a tombstone without one.
unfoldable pub late_remote : Option ServerConflict → FileEntry
late_remote none = record default_entry { deleted = true }
late_remote (some server) = elim server.current [
  | none ↦ record default_entry { deleted = true }
  | some entry ↦ entry
]

unfoldable pub status_message : ℕ → Text
status_message status = text "api error: batch operation answered " ++ decimal status

-- Whether the result stops the remaining batches.
unfoldable pub result_stops : BatchOperationResult → Bool
unfolding is_fatal_status
result_stops result =
    not (leb 200 result.status && leb result.status 299 || result.status == 409)
    && is_fatal_status result.status

abbrev push_op : SyncAction → BatchOp → Prepared → Prepared
push_op action op prepared = record {
  ops = prepared.ops ++ op ∷ [];
  members = prepared.members ++ action ∷ [];
}

-- The uploads of a range.
unfoldable pub slice : ℕ → ℕ → List SyncAction → List SyncAction
slice start count [] = []
slice zero zero (a ∷ actions) = []
slice zero (suc count) (a ∷ actions) = a ∷ slice zero count actions
slice (suc start) count (a ∷ actions) = slice start count actions

abbrev pub upload_ranges : List SyncAction → List Range
upload_ranges uploads = chunk_uploads (map local_size uploads)

module _ {W : Type 0} where
  -- Nothing sent yet.
  abbrev pub start_uploads : List Text → Device W → Uploading W
  start_uploads hold_back d = record {
    outcome = record { succeeded = 0; failures = []; late_conflicts = [] };
    hold_back = hold_back;
    device = d;
  }

  -- The closure `fail`.
  unfoldable pub fail : SyncAction → Text → Bool → Uploading W → Uploading W
  fail action message fatal s = record s {
    hold_back = insert_key action.path s.hold_back;
    outcome = record s.outcome {
      failures =
          s.outcome.failures
          ++ record { path = action.path; kind = action.kind; error = message; fatal = fatal } ∷ [];
    };
  }

  unfoldable pub succeed : Uploading W → Uploading W
  succeed s = record s { outcome = record s.outcome { succeeded = s.outcome.succeeded + 1 } }

  unfoldable pub late_conflict : SyncAction → Option ServerConflict → Uploading W → Uploading W
  unfolding local_entry late_remote
  late_conflict action server s = record s {
    hold_back = insert_key action.path s.hold_back;
    outcome = record s.outcome {
      late_conflicts =
          s.outcome.late_conflicts
          ++ record { path = action.path; local = local_entry action; remote = late_remote server }
            ∷ [];
    };
  }

  -- The result of one operation.
  unfoldable pub read_result : SyncAction → BatchOperationResult → Uploading W → Uploading W
  unfolding succeed late_conflict fail status_message is_fatal_status
  read_result action result s =
      if leb 200 result.status && leb result.status 299
      then succeed s
      else if result.status == 409
      then late_conflict action result.conflict s
      else fail action (status_message result.status) (is_fatal_status result.status) s

  -- `members.iter().zip(results)`, with `stop`.
  unfoldable pub read_results :
      List SyncAction → List BatchOperationResult → Uploading W → Bool → Uploading W × Bool
  unfolding read_result result_stops
  read_results (action ∷ members) (result ∷ results) s stop =
      read_results members results (read_result action result s) (stop || result_stops result)
  read_results _ _ s stop = (s, stop)

  unfoldable pub fail_all : List SyncAction → Text → Bool → Uploading W → Uploading W
  unfolding fail
  fail_all [] message fatal s = s
  fail_all (action ∷ members) message fatal s =
      fail_all members message fatal (fail action message fatal s)

module _ {W : Type 0} (p : Platform W) where
  unfoldable pub put_op : SyncAction → File → Device W → Result SyncEngineError (Option BatchOp)
  unfolding parent_hash local_hash
  put_op action file d = elim (p.encrypt d.net file.bytes) [
    | err e ↦ err (crypto e)
    | ok content ↦ ok (some (put action.path (parent_hash action) (local_hash action) content))
  ]

  abbrev pub put_read :
      SyncAction
      → Result SyncEngineError File × Device W
      → Result SyncEngineError (Option BatchOp) × Device W
  put_read action (ok file, d) = (put_op action file d, d)
  put_read action (err e, d) = (err e, d)

  abbrev pub batch_op : SyncActionKind → SyncAction → Io SyncEngineError (Device W) (Option BatchOp)
  batch_op upload action d = put_read action (read_file p action.path d)
  batch_op delete_remote action d = (ok (some (delete action.path (parent_hash action))), d)
  batch_op _ action d = (ok none, d)

  unfoldable pub prepare_batch_op : SyncAction → Io SyncEngineError (Device W) (Option BatchOp)
  unfolding read_file put_op parent_hash
  prepare_batch_op action = batch_op action.kind action

  abbrev pub prepared_with :
      SyncAction
      → Result SyncEngineError (Option BatchOp) × Device W
      → Prepared × Uploading W
      → Prepared × Uploading W
  prepared_with action (ok (some op), d) (prepared, s) =
      (push_op action op prepared, record s { device = d })
  prepared_with action (ok none, d) (prepared, s) = (prepared, succeed (record s { device = d }))
  prepared_with action (err error, d) (prepared, s) =
      (prepared, fail action (p.error_text error) false (record s { device = d }))

  -- The loop over the uploads of one batch.
  unfoldable pub prepare_batch : List SyncAction → Prepared × Uploading W → Prepared × Uploading W
  unfolding prepare_batch_op succeed fail
  prepare_batch [] b = b
  prepare_batch (action ∷ actions) b =
      prepare_batch actions (prepared_with action (prepare_batch_op action b.1.device) b)

  abbrev pub answered :
      List SyncAction
      → Result Client.ApiError (List BatchOperationResult)
      → Uploading W
      → Uploading W × Bool
  answered members (ok results) s = read_results members results s false
  answered members (err error) s = (
    fail_all members (p.api_error_text error) (is_fatal_api_error error) s,
    is_fatal_api_error error,
  )

  -- The request for a prepared batch; none when there is nothing to send.
  unfoldable pub send_prepared : List BatchOp → List SyncAction → Uploading W → Uploading W × Bool
  unfolding read_results fail_all is_fatal_api_error
  send_prepared [] members s = (s, false)
  send_prepared (op ∷ ops) members s =
      let (answer, net) = Client.batch p.transport (op ∷ ops) s.device.net in
      answered members answer (record s { device = record s.device { net = net } })

  unfoldable pub run_batch : List SyncAction → Uploading W → Uploading W × Bool
  unfolding prepare_batch send_prepared
  run_batch actions s =
      let (prepared, s') = prepare_batch actions (record { ops = []; members = [] }, s) in
      send_prepared prepared.ops prepared.members s'

  unfoldable pub run_batches : List SyncAction → List Range → Uploading W → Uploading W
  unfolding run_batch slice
  run_batches uploads [] s = s
  run_batches uploads (range ∷ ranges) s =
      let (s', stop) = run_batch (slice range.start (range.end - range.start) uploads) s in
      elim stop [ true ↦ s' | false ↦ run_batches uploads ranges s' ]

  unfoldable pub run_uploads : List SyncAction → List Text → Device W → Uploading W
  unfolding run_batches
  run_uploads uploads hold_back d =
      run_batches uploads (upload_ranges uploads) (start_uploads hold_back d)
