-- ===== src/Engine/Downloads/Landed.antt =====
-- What the downloads leave on the volume: local deletes run first, so also on a volume that takes
-- two spellings for one name no delete removes a file that was just fetched.
use obsink.Base.{
  ℕ, ◌≡◌, refl, sym, ◌∙◌, ap, Bool, true, false, not, ◌&&◌, ◌||◌, none, some, List, [], ◌∷◌, any,
  arith, inl, inr, Bool-cases, Option-cases, ltb, length,
}
use obsink.Base.Ord.{◌==◌, ==_iff, text_ord}
use obsink.Base.Text.{Text}
use obsink.Base.Result.{Result, ok, err, Result-cases}
use obsink.Types.{SyncAction, SyncFailure}
use obsink.Engine.{SyncEngineError, Platform, Device}
use obsink.Engine.Uploads.Held.{failed_at}
use obsink.Base.{any-append}
use obsink.Engine.Downloads.{
  Pool, Pick, start, finish, pool_step, run_pool, start_next, take_out, finish_with, fetch_file,
  fetch_outcome, raises_stop, failure_of, flatten, download_concurrency, is_download, fetches,
  deletes, ordered_for_apply, apply_deletes, open_pool, apply_downloads,
}
use obsink.Engine.Downloads.Schedule.{is_done, is_empty_list}
use obsink.Engine.Downloads.Lists.{
  pushed, any-flatten, all-append, any-take_out, all-take_out, kind_of, fetches-ordered,
}
use obsink.Engine.Downloads.Fetched.{
  landed, wanted, is_clear, Serves, landed-fetch, landed-fetch_other,
}

module _ {W : Type 0} (p : Platform W) (q contents : Text) where
  -- A fetch of the path that was begun goes on, has failed, never starts or has landed p q contents.
  abbrev is_settled : Pool W → Bool
  is_settled pool =
      wanted p q contents pool.waiting
      || (wanted p q contents pool.running
          || (failed_at q (flatten pool.outcomes)
              || (pool.stop || landed p q contents pool.device)))

  record IsSound (pool : Pool W) : Type 0 where
    settled : is_settled pool ≡ true
    waiting_clear : is_clear p q contents pool.waiting ≡ true
    running_clear : is_clear p q contents pool.running ≡ true
    stopped : pool.stop ≡ any (λ (f : SyncFailure). f.fatal) (flatten pool.outcomes)

  abbrev clear_at : SyncAction → Bool
  clear_at a = not (p.directory_entry a.path == p.directory_entry q) || a.path == q

  abbrev wanted_at : SyncAction → Bool
  wanted_at a = a.path == q && is_download a.kind

  start-IsSound :
      (waiting : List SyncAction) (pool : Pool W)
      → waiting ≡ pool.waiting
      → IsSound pool
      → IsSound (start_next waiting pool)
  unfolding start_next
  start-IsSound [] pool e v = v
  start-IsSound (action ∷ rest) pool e v =
      let was : wanted p q contents pool.waiting ≡ (wanted_at action || wanted p q contents rest) =
        ap (wanted p q contents) (sym e) in
      let clear : is_clear p q contents pool.waiting
          ≡ (clear_at action && is_clear p q contents rest) =
        ap (is_clear p q contents) (sym e) in
      elim (Bool-cases (not (is_download action.kind) || pool.stop)) [
        | inl skip ↦ rw skip (record {
          settled = ground (
            arith,
            v.settled,
            was,
            skip,
            any-flatten (λ (f : SyncFailure). f.path == q) pool.outcomes none,
          );
          waiting_clear = ground (arith, v.waiting_clear, clear);
          running_clear = v.running_clear;
          stopped =
              v.stopped
              ∙ ground (arith, any-flatten (λ (f : SyncFailure). f.fatal) pool.outcomes none);
        })
        | inr begin ↦ rw begin (record {
          settled = ground (arith, v.settled, was, any-append wanted_at pool.running (action ∷ []));
          waiting_clear = ground (arith, v.waiting_clear, clear);
          running_clear = ground (
            arith,
            v.waiting_clear,
            v.running_clear,
            clear,
            all-append clear_at pool.running (action ∷ []),
          );
          stopped = v.stopped;
        })
      ]

  -- What a fetch that ends means for the path.
  fetch_settles :
      (action : SyncAction) (d : Device W)
      → Serves p q contents
      → clear_at action ≡ true
      → (landed p q contents d || wanted_at action) ≡ true
      → (pushed
            (λ (f : SyncFailure). f.path == q)
            (fetch_outcome p action (fetch_file p action d).0)
          || landed p q contents (fetch_file p action d).1)
        ≡ true
  unfolding fetch_outcome failure_of
  fetch_settles action d serves clear h = elim (Bool-cases (action.path == q)) [
    | inl own ↦ elim (Result-cases (fetch_file p action d).0) [
      | inl (len, e) ↦
          ground
            (arith, landed-fetch p q contents action d len serves ((==_iff action.path q).0 own) e)
      | inr (error, e) ↦ rw (e, fetch_outcome) (ground (arith, own))
    ]
    | inr other ↦ ground (
      arith,
      clear,
      other,
      h,
      landed-fetch_other p q contents action d (ground (arith, clear, other)),
    )
  ]

  raises_stop-fatal :
      (action : SyncAction) (answer : Result SyncEngineError ℕ)
      → pushed (λ (f : SyncFailure). f.fatal) (fetch_outcome p action answer) ≡ raises_stop p answer
  unfolding fetch_outcome raises_stop failure_of
  raises_stop-fatal action (ok len) = refl
  raises_stop-fatal action (err error) = refl

  finish-IsSound :
      (n : ℕ) (pool : Pool W) (found : SyncAction × List SyncAction)
      → Serves p q contents
      → take_out n pool.running ≡ some found
      → IsSound pool
      → IsSound (finish_with p pool found.0 found.1 (fetch_file p found.0 pool.device))
  unfolding finish_with
  finish-IsSound n pool found serves e v =
      let answer = fetch_file p found.0 pool.device in
      let clear : clear_at found.0 ≡ true =
        ground (arith, v.running_clear, all-take_out clear_at n pool.running found e) in
      record {
        settled = ground (
          arith,
          v.settled,
          any-take_out wanted_at n pool.running found e,
          any-flatten (λ (f : SyncFailure). f.path == q) pool.outcomes
              (fetch_outcome p found.0 answer.0),
          fetch_settles found.0 pool.device serves clear,
        );
        waiting_clear = v.waiting_clear;
        running_clear =
            ground (arith, v.running_clear, all-take_out clear_at n pool.running found e);
        stopped = ground (
          arith,
          v.stopped,
          any-flatten (λ (f : SyncFailure). f.fatal) pool.outcomes
              (fetch_outcome p found.0 answer.0),
          raises_stop-fatal found.0 answer.0,
        );
      }

  pool_step-IsSound :
      (pick : Pick) (pool : Pool W)
      → Serves p q contents
      → IsSound pool
      → IsSound (pool_step p pool pick)
  unfolding pool_step
  pool_step-IsSound start pool serves v =
      elim (Bool-cases (ltb (length pool.running) download_concurrency)) [
        | inl free ↦ rw (free, pool_step) (start-IsSound pool.waiting pool refl v)
        | inr full ↦ rw (full, pool_step) v
      ]
  pool_step-IsSound (finish n) pool serves v = elim (Option-cases (take_out n pool.running)) [
    | inl e ↦ rw (e, pool_step) v
    | inr (found, e) ↦ rw (e, pool_step) (finish-IsSound n pool found serves e v)
  ]

  run_pool-IsSound :
      (picks : List Pick) (pool : Pool W)
      → Serves p q contents
      → IsSound pool
      → IsSound (run_pool p picks pool)
  unfolding run_pool
  run_pool-IsSound [] pool serves v = v
  run_pool-IsSound (pick ∷ picks) pool serves v =
      run_pool-IsSound picks (pool_step p pool pick) serves (pool_step-IsSound pick pool serves v)

  wanted-fetches :
      (xs : List SyncAction) → wanted p q contents (fetches xs) ≡ wanted p q contents xs
  unfolding fetches
  wanted-fetches [] = refl
  wanted-fetches (a ∷ xs) = ground (arith, wanted-fetches xs, kind_of a.kind)

  no_wanted : (xs : List SyncAction) → is_empty_list xs ≡ true → wanted p q contents xs ≡ false
  no_wanted [] h = refl
  no_wanted (a ∷ xs) h = absurd (ground (arith, h))

  done_wanted :
      (pool : Pool W)
      → is_done pool ≡ true
      → (wanted p q contents pool.waiting || wanted p q contents pool.running) ≡ false
  done_wanted pool h = ground (
    arith,
    no_wanted pool.waiting (ground (arith, h)),
    no_wanted pool.running (ground (arith, h)),
  )

  open_pool-IsSound :
      (downloads : List SyncAction) (d : Device W)
      → is_clear p q contents (fetches downloads) ≡ true
      → wanted p q contents downloads ≡ true
      → IsSound (open_pool p downloads d)
  unfolding open_pool flatten
  open_pool-IsSound downloads d clear want = record {
    settled = ground (
      arith,
      ap (wanted p q contents) (fetches-ordered downloads),
      wanted-fetches downloads,
      want,
    );
    waiting_clear = ap (is_clear p q contents) (fetches-ordered downloads) ∙ clear;
    running_clear = refl;
    stopped = refl;
  }

  -- When every fetch is over, in whatever order, a wanted path has its contents on the volume or is
  -- among the failures, unless one of them is fatal; the server's answers for the path decrypt to
  -- the contents, and no other fetch has its directory entry.
  pub downloads_land :
      (schedule : List Pick) (downloads : List SyncAction) (d : Device W)
      → Serves p q contents
      → is_clear p q contents (fetches downloads) ≡ true
      → wanted p q contents downloads ≡ true
      → is_done (run_pool p schedule (open_pool p downloads d)) ≡ true
      → (any (λ (f : SyncFailure). f.fatal) (apply_downloads p schedule downloads d).0
          || (failed_at q (apply_downloads p schedule downloads d).0
              || landed p q contents (apply_downloads p schedule downloads d).1))
        ≡ true
  unfolding apply_downloads
  downloads_land schedule downloads d serves clear want done =
      let pool = open_pool p downloads d in
      let last = run_pool p schedule pool in
      let early = (apply_deletes p (deletes (ordered_for_apply downloads)) ([], d)).0 in
      let v : IsSound last =
        run_pool-IsSound schedule pool serves (open_pool-IsSound downloads d clear want) in
      ground (
        arith,
        v.settled,
        v.stopped,
        done_wanted last done,
        any-append (λ (f : SyncFailure). f.fatal) early (flatten last.outcomes),
        any-append (λ (f : SyncFailure). f.path == q) early (flatten last.outcomes),
      )
