-- ===== src/Engine/Downloads.antt =====
-- core/src/sync_engine.rs: a plan's downloads. The fetches run `download_concurrency` at a time: a
-- schedule says which of them starts or ends next. A fetch starts with its look at the stop flag and
-- ends with its request, its write and the flag of a fatal error in one step.
pub mod Schedule
pub mod Lists
pub mod Fetched
pub mod Landed
use obsink.Base.{
  ℕ, zero, suc, ◌+◌, Bool, true, false, not, ◌&&◌, ◌||◌, Option, none, some, List, [], ◌∷◌, ◌++◌,
  ltb, length, filter, if◌then◌else◌, get_elem?,
}
use obsink.Base.Text.{Text}
use obsink.Base.Result.{Result, ok, err}
use obsink.Base.Io.{Io, ◌>>=◌}
use obsink.Types.{
  SyncAction, SyncActionKind, upload, download, delete_local, delete_remote, SyncFailure,
}
use obsink.Engine.{
  SyncEngineError, Device, Platform, is_fatal_sync_error, delete_local_file, decrypt_and_write,
  get_file,
}

-- DOWNLOAD_CONCURRENCY
abbrev pub download_concurrency : ℕ
download_concurrency = 8

abbrev pub is_delete_local : SyncActionKind → Bool
is_delete_local delete_local = true
is_delete_local _ = false

abbrev pub is_download : SyncActionKind → Bool
is_download download = true
is_download _ = false

unfoldable pub deletes : List SyncAction → List SyncAction
deletes = filter (λ (a : SyncAction). is_delete_local a.kind)

unfoldable pub fetches : List SyncAction → List SyncAction
fetches = filter (λ (a : SyncAction). not (is_delete_local a.kind))

unfoldable pub ordered_for_apply : List SyncAction → List SyncAction
unfolding deletes fetches
ordered_for_apply downloads = deletes downloads ++ fetches downloads

-- The fetches in flight and those that were not polled yet.
pub record Pool (W : Type 0) : Type 0 where
  pub waiting : List SyncAction
  pub running : List SyncAction
  pub outcomes : List (Option SyncFailure)
  pub stop : Bool
  pub device : Device W

pub data Pick : Type 0 where
  start : Pick
  finish : ℕ → Pick

-- The element at an index, and the others.
unfoldable pub take_out {ℓ} : {A : Type ℓ} → ℕ → List A → Option (A × List A)
take_out n [] = none
take_out zero (x ∷ xs) = some (x, xs)
take_out (suc n) (x ∷ xs) = elim (take_out n xs) [
  | none ↦ none
  | some found ↦ some (found.0, x ∷ found.1)
]

-- `into_iter().flatten()`.
unfoldable pub flatten {ℓ} : {A : Type ℓ} → List (Option A) → List A
flatten [] = []
flatten (none ∷ os) = flatten os
flatten (some a ∷ os) = a ∷ flatten os

unfoldable pub failure_of : SyncAction → SyncActionKind → Text → Bool → SyncFailure
failure_of action kind error fatal = record {
  path = action.path;
  kind = kind;
  error = error;
  fatal = fatal;
}

-- The first poll of the next waiting future.
unfoldable pub start_next : {W : Type 0} → List SyncAction → Pool W → Pool W
start_next [] pool = pool
start_next (action ∷ rest) pool =
    if not (is_download action.kind) || pool.stop
    then record pool { waiting = rest; outcomes = pool.outcomes ++ none ∷ [] }
    else record pool { waiting = rest; running = pool.running ++ action ∷ [] }

module _ {W : Type 0} (p : Platform W) where
  unfoldable pub fetch_file : SyncAction → Io SyncEngineError (Device W) ℕ
  unfolding get_file decrypt_and_write
  fetch_file action = do blob ← get_file p action.path; decrypt_and_write p action.path blob

  unfoldable pub fetch_outcome : SyncAction → Result SyncEngineError ℕ → Option SyncFailure
  unfolding failure_of is_fatal_sync_error
  fetch_outcome action (ok len) = none
  fetch_outcome action (err error) =
      some (failure_of action download (p.error_text error) (is_fatal_sync_error error))

  unfoldable pub raises_stop : Result SyncEngineError ℕ → Bool
  unfolding is_fatal_sync_error
  raises_stop (ok len) = false
  raises_stop (err error) = is_fatal_sync_error error

  unfoldable pub finish_with :
      Pool W → SyncAction → List SyncAction → Result SyncEngineError ℕ × Device W → Pool W
  unfolding fetch_outcome raises_stop
  finish_with pool action rest (answer, d) = record pool {
    running = rest;
    outcomes = pool.outcomes ++ fetch_outcome action answer ∷ [];
    stop = pool.stop || raises_stop answer;
    device = d;
  }

  -- A pick that `buffer_unordered` does not make leaves the pool as it is.
  unfoldable pub pool_step : Pool W → Pick → Pool W
  unfolding start_next finish_with take_out fetch_file
  pool_step pool start =
      if ltb (length pool.running) download_concurrency then start_next pool.waiting pool else pool
  pool_step pool (finish n) = elim (take_out n pool.running) [
    | none ↦ pool
    | some found ↦ finish_with pool found.0 found.1 (fetch_file found.0 pool.device)
  ]

  unfoldable pub run_pool : List Pick → Pool W → Pool W
  unfolding pool_step
  run_pool [] pool = pool
  run_pool (pick ∷ picks) pool = run_pool picks (pool_step pool pick)

  abbrev pub push_delete_failure :
      SyncAction
      → List SyncFailure × Device W
      → Result SyncEngineError (Unit {0}) × Device W
      → List SyncFailure × Device W
  push_delete_failure action (failures, _) (ok u, d) = (failures, d)
  push_delete_failure action (failures, _) (err error, d) =
      (failures ++ failure_of action delete_local (p.error_text error) false ∷ [], d)

  unfoldable pub apply_deletes :
      List SyncAction → List SyncFailure × Device W → List SyncFailure × Device W
  unfolding delete_local_file failure_of
  apply_deletes [] s = s
  apply_deletes (action ∷ actions) s =
      apply_deletes actions (push_delete_failure action s (delete_local_file p action.path s.1))

  -- The pool once the deletes are done.
  unfoldable pub open_pool : List SyncAction → Device W → Pool W
  unfolding apply_deletes ordered_for_apply
  open_pool downloads d = record {
    waiting = fetches (ordered_for_apply downloads);
    running = [];
    outcomes = [];
    stop = false;
    device = (apply_deletes (deletes (ordered_for_apply downloads)) ([], d)).1;
  }

  -- The failures and the device after the picks of `schedule`.
  unfoldable pub apply_downloads :
      List Pick → List SyncAction → Device W → List SyncFailure × Device W
  unfolding open_pool run_pool apply_deletes ordered_for_apply flatten
  apply_downloads schedule downloads d =
      let pool = run_pool schedule (open_pool downloads d) in
      (
        (apply_deletes (deletes (ordered_for_apply downloads)) ([], d)).0 ++ flatten pool.outcomes,
        pool.device,
      )
