-- ===== src/Engine/Uploads/Sorted.antt =====
-- core/src/sync_engine.rs: an answered batch of uploads, result by result.
use mathlib.Core.List.{zip, append_assoc, append-nil}
use obsink.Base.{
  ℕ, ◌+◌, ◌≡◌, refl, sym, ◌∙◌, ap, Bool, not, ◌&&◌, ◌||◌, List, [], ◌∷◌, ◌++◌, length, map, filter,
  any, leb, arith, inl, inr, Bool-cases,
}
use obsink.Base.Ord.{◌==◌, nat_ord, text_ord}
use obsink.Base.Text.{Text}
use obsink.Base.BTreeMap.{contains, contains-insert_key}
use obsink.Types.{SyncAction, SyncFailure, Conflict, BatchOperationResult}
use obsink.Client
use obsink.Engine.{Platform, is_fatal_status}
use obsink.Engine.Uploads.{
  Uploading, Prepared, UploadOutcome, fail, succeed, late_conflict, read_result, read_results,
  result_stops, prepare_batch, status_message, local_entry, late_remote,
}

-- An upload with the result at its position.
abbrev pub Pair : Type 0
Pair = SyncAction × BatchOperationResult

abbrev pub went_through : Pair → Bool
went_through (action, result) = leb 200 result.status && leb result.status 299

abbrev pub is_late : Pair → Bool
is_late (action, result) =
    not (leb 200 result.status && leb result.status 299) && result.status == 409

abbrev pub went_wrong : Pair → Bool
went_wrong (action, result) =
    not (leb 200 result.status && leb result.status 299) && not (result.status == 409)

abbrev pub failure : Pair → SyncFailure
failure (action, result) = record {
  path = action.path;
  kind = action.kind;
  error = status_message result.status;
  fatal = is_fatal_status result.status;
}

abbrev pub conflict : Pair → Conflict
conflict (action, result) = record {
  path = action.path;
  local = local_entry action;
  remote = late_remote result.conflict;
}

abbrev pub is_fatal : Pair → Bool
is_fatal (action, result) = went_wrong (action, result) && is_fatal_status result.status

abbrev pub is_held : Text → Pair → Bool
is_held q (action, result) =
    not (leb 200 result.status && leb result.status 299) && action.path == q

-- The outcome with the uploads of a batch sorted by their results.
abbrev pub sorted : List Pair → UploadOutcome → UploadOutcome
sorted pairs outcome = record {
  succeeded = outcome.succeeded + length (filter went_through pairs);
  failures = outcome.failures ++ map failure (filter went_wrong pairs);
  late_conflicts = outcome.late_conflicts ++ map conflict (filter is_late pairs);
}

abbrev outcome_of : ℕ → List SyncFailure → List Conflict → UploadOutcome
outcome_of n f c = record { succeeded = n; failures = f; late_conflicts = c }

outcome_ext :
    (n n' : ℕ) (f f' : List SyncFailure) (c c' : List Conflict)
    → n ≡ n'
    → f ≡ f'
    → c ≡ c'
    → outcome_of n f c ≡ outcome_of n' f' c'
outcome_ext n n' f f' c c' en ef ec = rw (en, ef, ec) refl

sorted_none : (outcome : UploadOutcome) → outcome ≡ sorted [] outcome
sorted_none outcome =
    outcome_ext _ _ _ _ _ _ (omega arith) (sym (append-nil outcome.failures))
      (sym (append-nil outcome.late_conflicts))

or_assoc : (a b c : Bool) → ((a || b) || c) ≡ (a || (b || c))
or_assoc a b c = ground arith

result_stops-fatal :
    (action : SyncAction) (result : BatchOperationResult)
    → result_stops result ≡ is_fatal (action, result)
unfolding result_stops
result_stops-fatal action result = ground arith

module _ {W : Type 0} where
  -- One result, and the others after it.
  read_result-sorted :
      (action : SyncAction) (result : BatchOperationResult) (pairs : List Pair) (s : Uploading W)
      → sorted pairs (read_result action result s).outcome
        ≡ sorted ((action, result) ∷ pairs) s.outcome
  unfolding read_result succeed late_conflict fail
  read_result-sorted action result pairs s =
      elim (Bool-cases (leb 200 result.status && leb result.status 299)) [
        | inl done ↦ rw (done, read_result) (outcome_ext _ _ _ _ _ _ (omega arith) refl refl)
        | inr other ↦ elim (Bool-cases (result.status == 409)) [
          | inl late ↦
              rw (other, late, read_result)
                (outcome_ext _ _ _ _ _ _ refl refl (
                  append_assoc s.outcome.late_conflicts (conflict (action, result) ∷ [])
                    (map conflict (filter is_late pairs))))
          | inr wrong ↦
              rw (other, wrong, read_result)
                (outcome_ext _ _ _ _ _ _ refl
                  (append_assoc s.outcome.failures (failure (action, result) ∷ [])
                    (map failure (filter went_wrong pairs)))
                  refl)
        ]
      ]

  read_result-holds :
      (action : SyncAction) (result : BatchOperationResult) (s : Uploading W) (q : Text)
      → contains (read_result action result s).hold_back q
        ≡ (contains s.hold_back q || is_held q (action, result))
  unfolding read_result succeed late_conflict fail
  read_result-holds action result s q =
      ground (arith, contains-insert_key action.path q s.hold_back)

  pub read_results-sorted :
      (members : List SyncAction) (results : List BatchOperationResult) (s : Uploading W)
      (stop : Bool)
      → ((read_results members results s stop).0.outcome ≡ sorted (zip members results) s.outcome)
        × ((read_results members results s stop).1 ≡ (stop || any is_fatal (zip members results)))
        × ((q : Text)
            → contains (read_results members results s stop).0.hold_back q
              ≡ (contains s.hold_back q || any (is_held q) (zip members results)))
  unfolding read_results zip
  read_results-sorted [] results s stop = (sorted_none s.outcome, ground arith, λ q. ground arith)
  read_results-sorted (action ∷ members) [] s stop =
      (sorted_none s.outcome, ground arith, λ q. ground arith)
  read_results-sorted (action ∷ members) (result ∷ results) s stop =
      let (outcome, stops, held) =
        read_results-sorted members results (read_result action result s)
          (stop || result_stops result) in
      (
        outcome ∙ read_result-sorted action result (zip members results) s,
        stops
            ∙ or_assoc stop (result_stops result) (any is_fatal (zip members results))
            ∙ ap (λ b. stop || (b || any is_fatal (zip members results)))
                (result_stops-fatal action result),
        λ q.
            held q
            ∙ ap (λ b. b || any (is_held q) (zip members results))
                (read_result-holds action result s q)
            ∙ or_assoc (contains s.hold_back q) (is_held q (action, result))
                (any (is_held q) (zip members results)),
      )

  -- The operations of a batch and the members they are for, with what became of the others.
  abbrev pub batch_of : Platform W → List SyncAction → Uploading W → Prepared × Uploading W
  batch_of p actions s = prepare_batch p actions (record { ops = []; members = [] }, s)
