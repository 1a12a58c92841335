-- ===== src/Engine/Uploads/Counted.antt =====
-- The uploads that the steps of the loop account for.
use obsink.Base.{
  ℕ, ◌+◌, ◌≡◌, Bool, ◌&&◌, ◌||◌, Option, List, [], ◌∷◌, length, arith, inl, inr, Bool-cases, leb,
  length-append,
}
use obsink.Base.Ord.{◌==◌, nat_ord, text_ord}
use obsink.Base.Text.{Text}
use obsink.Types.{SyncAction, BatchOperationResult, ServerConflict}
use obsink.Engine.Uploads.{
  Uploading, fail, fail_all, succeed, late_conflict, read_result, read_results, result_stops,
  local_entry, late_remote,
}

module _ {W : Type 0} where
  -- The uploads that an outcome accounts for.
  abbrev pub accounted : Uploading W → ℕ
  accounted s = s.outcome.succeeded + length s.outcome.failures + length s.outcome.late_conflicts

  pub accounted-fail :
      (action : SyncAction) (message : Text) (fatal : Bool) (s : Uploading W)
      → accounted (fail action message fatal s) ≡ accounted s + 1
  unfolding fail
  accounted-fail action message fatal s = omega (
    arith,
    length-append s.outcome.failures
        (record { path = action.path; kind = action.kind; error = message; fatal = fatal } ∷ []),
  )

  accounted-late :
      (action : SyncAction) (server : Option ServerConflict) (s : Uploading W)
      → accounted (late_conflict action server s) ≡ accounted s + 1
  unfolding late_conflict
  accounted-late action server s = omega (
    arith,
    length-append s.outcome.late_conflicts (
        record { path = action.path; local = local_entry action; remote = late_remote server }
        ∷ []),
  )

  pub accounted-succeed : (s : Uploading W) → accounted (succeed s) ≡ accounted s + 1
  unfolding succeed
  accounted-succeed s = omega arith

  accounted-read_result :
      (action : SyncAction) (result : BatchOperationResult) (s : Uploading W)
      → accounted (read_result action result s) ≡ accounted s + 1
  unfolding read_result
  accounted-read_result action result s =
      elim (Bool-cases (leb 200 result.status && leb result.status 299)) [
        | inl done ↦ rw done (accounted-succeed s)
        | inr other ↦ elim (Bool-cases (result.status == 409)) [
          | inl conflicting ↦ rw (other, conflicting) (accounted-late action result.conflict s)
          | inr failing ↦ rw (other, failing) (accounted-fail action _ _ s)
        ]
      ]

  pub accounted-read_results :
      (members : List SyncAction) (results : List BatchOperationResult) (s : Uploading W)
      (stop : Bool)
      → length results ≡ length members
      → accounted (read_results members results s stop).0 ≡ accounted s + length members
  unfolding read_results
  accounted-read_results [] results s stop e = omega arith
  accounted-read_results (action ∷ members) [] s stop e = omega arith
  accounted-read_results (action ∷ members) (result ∷ results) s stop e = omega (
    arith,
    accounted-read_results members results (read_result action result s)
        (stop || result_stops result) (omega arith),
    accounted-read_result action result s,
  )

  pub accounted-fail_all :
      (members : List SyncAction) (message : Text) (fatal : Bool) (s : Uploading W)
      → accounted (fail_all members message fatal s) ≡ accounted s + length members
  unfolding fail_all
  accounted-fail_all [] message fatal s = omega arith
  accounted-fail_all (action ∷ members) message fatal s = omega (
    arith,
    accounted-fail_all members message fatal (fail action message fatal s),
    accounted-fail action message fatal s,
  )
