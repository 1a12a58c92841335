-- ===== src/Engine/Downloads/Schedule.antt =====
-- The schedules of the fetches: how many run at once, and that every schedule ends.
use obsink.Base.{
  ℕ, zero, suc, ◌+◌, ◌*◌, ◌≤◌, ◌<◌, ◌≡◌, refl, sym, ◌∙◌, Bool, true, false, not, ◌&&◌, none, some,
  List, [], ◌∷◌, length, ltb, ltb→lt, lt→ltb, arith, ap, inl, inr, Bool-cases, Option-cases,
  length-append,
}
use obsink.Types.{SyncAction}
use obsink.Engine.{Platform}
use obsink.Engine.Downloads.{
  Pool, Pick, start, finish, pool_step, run_pool, start_next, take_out, finish_with,
  download_concurrency,
}

abbrev pub is_empty_list {ℓ} : {A : Type ℓ} → List A → Bool
is_empty_list [] = true
is_empty_list (x ∷ xs) = false

length-empty {ℓ} : {A : Type ℓ} (xs : List A) → is_empty_list xs ≡ true → length xs ≡ 0
length-empty [] h = refl
length-empty (x ∷ xs) h = absurd (ground (arith, h))

length-filled {ℓ} : {A : Type ℓ} (xs : List A) → is_empty_list xs ≡ false → 0 < length xs
length-filled [] h = absurd (ground (arith, h))
length-filled (x ∷ xs) h = omega arith

module _ {W : Type 0} where
  -- Whether `buffer_unordered` can make the pick: a free slot and a future that waits, or a future
  -- in flight.
  abbrev pub enabled : Pool W → Pick → Bool
  enabled pool start =
      ltb (length pool.running) download_concurrency && not (is_empty_list pool.waiting)
  enabled pool (finish n) = ltb n (length pool.running)

  -- Every fetch is over.
  abbrev pub is_done : Pool W → Bool
  is_done pool = is_empty_list pool.waiting && is_empty_list pool.running

  -- A start and an end for a waiting fetch, an end for one in flight.
  abbrev pub work : Pool W → ℕ
  work pool = 2 * length pool.waiting + length pool.running

  abbrev pub fetch_count : Pool W → ℕ
  fetch_count pool = length pool.waiting + length pool.running + length pool.outcomes

take_out-length {ℓ} :
    {A : Type ℓ} (n : ℕ) (xs : List A) (found : A × List A)
    → take_out n xs ≡ some found
    → length xs ≡ suc (length found.1)
unfolding take_out
take_out-length n [] found h = ground (arith, h)
take_out-length zero (x ∷ xs) found h = ground (arith, h)
take_out-length (suc n) (x ∷ xs) found h = elim (Option-cases (take_out n xs)) [
  | inl e ↦ ground (arith, e, h)
  | inr (g, e) ↦ ground (arith, e, h, take_out-length n xs g e)
]

take_out-none {ℓ} :
    {A : Type ℓ} (n : ℕ) (xs : List A) → take_out n xs ≡ none → ltb n (length xs) ≡ false
unfolding take_out
take_out-none n [] h = ground arith
take_out-none zero (x ∷ xs) h = ground (arith, h)
take_out-none (suc n) (x ∷ xs) h = ground (arith, h, take_out-none n xs)

-- A start either skips the next fetch or puts it in flight.
module _ {W : Type 0} (pool : Pool W) where
  start-running :
      (waiting : List SyncAction)
      → length (start_next waiting pool).running ≤ length pool.running + 1
  unfolding start_next
  start-running [] = omega arith
  start-running (action ∷ rest) = ground (arith, length-append pool.running (action ∷ []))

  start-fetch_count :
      (waiting : List SyncAction)
      → waiting ≡ pool.waiting
      → fetch_count (start_next waiting pool) ≡ fetch_count pool
  unfolding start_next
  start-fetch_count [] e = refl
  start-fetch_count (action ∷ rest) e = rw (sym e) (
      ground
        (arith, length-append pool.running (action ∷ []), length-append pool.outcomes (none ∷ [])))

  start-work :
      (waiting : List SyncAction)
      → waiting ≡ pool.waiting
      → is_empty_list waiting ≡ false
      → work (start_next waiting pool) < work pool
  unfolding start_next
  start-work [] e h = absurd (ground (arith, h))
  start-work (action ∷ rest) e h =
      rw (sym e) (ground (arith, length-append pool.running (action ∷ [])))

module _ {W : Type 0} (p : Platform W) where
  -- Never more than `download_concurrency` fetches are in flight.
  running_bound :
      (pool : Pool W) (pick : Pick)
      → length pool.running ≤ download_concurrency
      → length (pool_step p pool pick).running ≤ download_concurrency
  unfolding pool_step start_next finish_with
  running_bound pool start h = elim (Bool-cases (ltb (length pool.running) download_concurrency)) [
    | inl free ↦
        rw (free, pool_step)
          (omega (arith, start-running pool pool.waiting, ltb→lt (length pool.running) 8 free))
    | inr full ↦ rw (full, pool_step) h
  ]
  running_bound pool (finish n) h = elim (Option-cases (take_out n pool.running)) [
    | inl e ↦ rw (e, pool_step) h
    | inr (found, e) ↦ rw (e, pool_step) (omega (arith, h, take_out-length n pool.running found e))
  ]

  fetch_count-pool_step :
      (pool : Pool W) (pick : Pick) → fetch_count (pool_step p pool pick) ≡ fetch_count pool
  unfolding pool_step start_next finish_with
  fetch_count-pool_step pool start =
      elim (Bool-cases (ltb (length pool.running) download_concurrency)) [
        | inl free ↦ rw (free, pool_step) (start-fetch_count pool pool.waiting refl)
        | inr full ↦ rw (full, pool_step) refl
      ]
  fetch_count-pool_step pool (finish n) = elim (Option-cases (take_out n pool.running)) [
    | inl e ↦ rw (e, pool_step) refl
    | inr (found, e) ↦
        rw (e, pool_step)
          (omega
            (arith, take_out-length n pool.running found e, length-append pool.outcomes (_ ∷ [])))
  ]

  work-pool_step :
      (pool : Pool W) (pick : Pick)
      → enabled pool pick ≡ true
      → work (pool_step p pool pick) < work pool
  unfolding pool_step start_next finish_with
  work-pool_step pool start h =
      let free : ltb (length pool.running) download_concurrency ≡ true = ground (arith, h) in
      let some_waiting : is_empty_list pool.waiting ≡ false = ground (arith, h) in
      rw (free, pool_step) (start-work pool pool.waiting refl some_waiting)
  work-pool_step pool (finish n) h = elim (Option-cases (take_out n pool.running)) [
    | inl e ↦ absurd (ground (arith, h, take_out-none n pool.running e))
    | inr (found, e) ↦ rw (e, pool_step) (omega (arith, take_out-length n pool.running found e))
  ]

  -- Every pick of the schedule can be made when it is its turn.
  abbrev pub AllEnabled : Pool W → List Pick → Type 0
  AllEnabled pool [] = Unit
  AllEnabled pool (pick ∷ picks) =
      (enabled pool pick ≡ true) × AllEnabled (pool_step p pool pick) picks

  -- However the picks are made, at most `download_concurrency` fetches are in flight.
  pub run_pool-bound :
      (picks : List Pick) (pool : Pool W)
      → length pool.running ≤ download_concurrency
      → length (run_pool p picks pool).running ≤ download_concurrency
  unfolding run_pool
  run_pool-bound [] pool h = h
  run_pool-bound (pick ∷ picks) pool h =
      run_pool-bound picks (pool_step p pool pick) (running_bound pool pick h)

  fetch_count-run_pool :
      (picks : List Pick) (pool : Pool W) → fetch_count (run_pool p picks pool) ≡ fetch_count pool
  unfolding run_pool
  fetch_count-run_pool [] pool = refl
  fetch_count-run_pool (pick ∷ picks) pool =
      fetch_count-run_pool picks (pool_step p pool pick) ∙ fetch_count-pool_step pool pick

  work-run_pool :
      (picks : List Pick) (pool : Pool W)
      → AllEnabled pool picks
      → length picks + work (run_pool p picks pool) ≤ work pool
  unfolding run_pool
  work-run_pool [] pool h = omega arith
  work-run_pool (pick ∷ picks) pool h =
      omega (arith, work-run_pool picks (pool_step p pool pick) h.1, work-pool_step pool pick h.0)

  next_pick : (pool : Pool W) → is_done pool ≡ false → (pick : Pick) × (enabled pool pick ≡ true)
  next_pick pool h = elim (Bool-cases (is_empty_list pool.running)) [
    | inl idle ↦ (start, ground (arith, h, idle, length-empty pool.running idle))
    | inr busy ↦ (finish 0, lt→ltb 0 (length pool.running) (length-filled pool.running busy))
  ]

  -- A schedule of picks that can be made is no longer than twice the fetches; as long as a fetch is
  -- not over there is a next pick, and when all are over each has its outcome.
  pub downloads_terminate :
      (picks : List Pick) (pool : Pool W)
      → pool.running ≡ []
      → pool.outcomes ≡ []
      → AllEnabled pool picks
      → (length picks ≤ 2 * length pool.waiting)
        × (is_done (run_pool p picks pool) ≡ true
            → length (run_pool p picks pool).outcomes ≡ length pool.waiting)
        × (is_done (run_pool p picks pool) ≡ false
            → (pick : Pick) × (enabled (run_pool p picks pool) pick ≡ true))
  downloads_terminate picks pool er eo h =
      let last = run_pool p picks pool in
      let nr : length pool.running ≡ 0 = ap length er in
      let no : length pool.outcomes ≡ 0 = ap length eo in
      (
        omega (arith, work-run_pool picks pool h, nr),
        λ done. omega (
          arith,
          fetch_count-run_pool picks pool,
          nr,
          no,
          length-empty last.waiting (ground (arith, done)),
          length-empty last.running (ground (arith, done)),
        ),
        next_pick last,
      )
