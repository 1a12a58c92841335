-- ===== src/Engine/Uploads/Fatal.antt =====
-- Only a fatal failure ends the uploads early.
use obsink.Base.{
  ◌≡◌, Bool, true, false, ◌&&◌, ◌||◌, Option, List, [], ◌∷◌, any, arith, inl, inr, Bool-cases, leb,
}
use obsink.Base.Ord.{◌==◌, nat_ord, text_ord}
use obsink.Base.Text.{Text}
use obsink.Types.{SyncAction, SyncFailure, BatchOperationResult, ServerConflict}
use obsink.SyncRules.{Range}
use obsink.Engine.{Platform}
use obsink.Engine.Uploads.{
  Uploading, fail, succeed, late_conflict, read_result, read_results, result_stops, run_batches,
}
use obsink.Engine.Uploads.Keeps.{run_batches-keeps}
use obsink.Base.{any-append}

module _ {W : Type 0} where
  abbrev pub Fatal : Uploading W → Type 0
  Fatal s = any (λ (f : SyncFailure). f.fatal) s.outcome.failures ≡ true

  pub fail-Fatal :
      (action : SyncAction) (message : Text) (fatal : Bool) (s : Uploading W)
      → Fatal s
      → Fatal (fail action message fatal s)
  unfolding fail
  fail-Fatal action message fatal s v = ground (
    arith,
    v,
    any-append (λ (f : SyncFailure). f.fatal) s.outcome.failures
        (record { path = action.path; kind = action.kind; error = message; fatal = fatal } ∷ []),
  )

  pub failed-Fatal :
      (action : SyncAction) (message : Text) (fatal : Bool) (s : Uploading W)
      → (fatal ≡ false → Fatal s)
      → Fatal (fail action message fatal s)
  unfolding fail
  failed-Fatal action message fatal s v = ground (
    arith,
    v,
    any-append (λ (f : SyncFailure). f.fatal) s.outcome.failures
        (record { path = action.path; kind = action.kind; error = message; fatal = fatal } ∷ []),
  )

  pub late-Fatal :
      (action : SyncAction) (server : Option ServerConflict) (s : Uploading W)
      → Fatal s
      → Fatal (late_conflict action server s)
  unfolding late_conflict
  late-Fatal action server s v = v

  pub succeed-Fatal : (s : Uploading W) → Fatal s → Fatal (succeed s)
  unfolding succeed
  succeed-Fatal s v = v

  pub on_net-Fatal :
      (s : Uploading W) (net : W)
      → Fatal s
      → Fatal (record s { device = record s.device { net = net } })
  on_net-Fatal s net v = v

  pub run_batches-Fatal :
      (p : Platform W) (uploads : List SyncAction) (ranges : List Range) (s : Uploading W)
      → Fatal s
      → Fatal (run_batches p uploads ranges s)
  run_batches-Fatal p = run_batches-keeps Fatal fail-Fatal late-Fatal succeed-Fatal on_net-Fatal p

  -- The result that stops the uploads is a fatal failure.
  stop-read_result :
      (action : SyncAction) (result : BatchOperationResult) (s : Uploading W) (stop : Bool)
      → (stop ≡ true → Fatal s)
      → (stop || result_stops result) ≡ true
      → Fatal (read_result action result s)
  unfolding read_result result_stops
  stop-read_result action result s stop v h =
      elim (Bool-cases (leb 200 result.status && leb result.status 299)) [
        | inl done ↦ rw done (succeed-Fatal s (v (ground (arith, h, done))))
        | inr other ↦ elim (Bool-cases (result.status == 409)) [
          | inl conflicting ↦
              rw (other, conflicting)
                (late-Fatal action result.conflict s (v (ground (arith, h, conflicting))))
          | inr failing ↦
              rw (other, failing) (failed-Fatal action _ _ s (ground (arith, h, other, failing, v)))
        ]
      ]

  -- A batch that stops the uploads has a fatal failure.
  pub stop-read_results :
      (members : List SyncAction) (results : List BatchOperationResult) (s : Uploading W)
      (stop : Bool)
      → (stop ≡ true → Fatal s)
      → (read_results members results s stop).1 ≡ true
      → Fatal (read_results members results s stop).0
  unfolding read_results
  stop-read_results [] results s stop v h = v h
  stop-read_results (action ∷ members) [] s stop v h = v h
  stop-read_results (action ∷ members) (result ∷ results) s stop v h =
      stop-read_results members results (read_result action result s) _
        (stop-read_result action result s stop v) h
