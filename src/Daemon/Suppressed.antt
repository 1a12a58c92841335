-- ===== src/Daemon/Suppressed.antt =====
-- After a fatal failure the timer starts nothing until the backoff's wait is over, and a cycle's own
-- writes do not start another one.
use obsink.Base.{
  ℕ, ◌+◌, ◌<◌, ◌≡◌, refl, sym, ◌∙◌, ap, Bool, true, Option, none, some, List, [], ◌∷◌, arith, inl,
  inr, Bool-cases, Option-cases, lt→ltb, is_some,
}
use obsink.Base.Ord.{text_ord}
use obsink.Base.Text.{Text}
use obsink.Base.Result.{Result, ok, err}
use obsink.Types.{SyncPlan, SyncResult, from_late_conflicts}
use obsink.Pacing.{backoff_wait, next_wait}
use obsink.Engine.{SyncEngineError, Platform, VaultConfig, is_fatal_sync_error}
use obsink.Engine.Downloads.{Pick}
use obsink.Daemon.{
  Daemon, Trigger, send, send_pending, settle_backoff, report_failure, cycle_ok, cycle_end, cycle,
  observe_paths, drop_self_writes, fatal_message, execute, is_self_write,
}
use obsink.Daemon.Loop.{run_cycle, active_if, on_timer, is_suppressed}

-- Whether a cycle's outcome is a fatal failure.
abbrev pub is_fatal_outcome : Result SyncEngineError SyncResult → Bool
is_fatal_outcome (ok result) = is_some (fatal_message result)
is_fatal_outcome (err error) = is_fatal_sync_error error

module _ {W : Type 0} where
  -- The wait of the daemon's backoff.
  abbrev pub wait_of : Daemon W → ℕ
  wait_of s = backoff_wait s.backoff.base s.backoff.max s.backoff.failures

  send_pending-suppressed :
      (plan : Option SyncPlan) (s : Daemon W)
      → (send_pending plan s).suppressed_until ≡ s.suppressed_until
  unfolding send_pending send
  send_pending-suppressed none s = refl
  send_pending-suppressed (some plan) s = refl

  report_failure-suppressed :
      (after : ℕ) (message : Text) (s : Daemon W)
      → (report_failure after message true s).suppressed_until ≡ some (after + wait_of s)
  unfolding report_failure send next_wait
  report_failure-suppressed after message s = refl

  cycle_ok-suppressed :
      (after : ℕ) (result : SyncResult) (s : Daemon W)
      → is_some (fatal_message result) ≡ true
      → (cycle_ok after result s).suppressed_until ≡ some (after + wait_of s)
  unfolding cycle_ok send settle_backoff
  cycle_ok-suppressed after result s h = elim (Option-cases (fatal_message result)) [
    | inl e ↦ absurd (ground (arith, h, e))
    | inr (message, e) ↦
        send_pending-suppressed (from_late_conflicts result) _
        ∙ rw (e, settle_backoff) (report_failure-suppressed after message s)
  ]

module _ {W : Type 0} (p : Platform W) (config : VaultConfig) where
  cycle_end-suppressed :
      (after : ℕ) (outcome : Result SyncEngineError SyncResult) (s : Daemon W)
      → is_fatal_outcome outcome ≡ true
      → (cycle_end p config after outcome s).1.suppressed_until ≡ some (after + wait_of s)
  cycle_end-suppressed after (ok result) s h = cycle_ok-suppressed after result s h
  cycle_end-suppressed after (err error) s h =
      rw h (report_failure-suppressed after (p.error_text error) s)

  cycle_end-outcome :
      (after : ℕ) (outcome : Result SyncEngineError SyncResult) (s : Daemon W)
      → (cycle_end p config after outcome s).0 ≡ outcome
  cycle_end-outcome after (ok result) s = refl
  cycle_end-outcome after (err error) s = refl

  observe_paths-suppressed :
      (now : ℕ) (paths : List Text) (s : Daemon W)
      → (observe_paths p config now paths s).suppressed_until ≡ s.suppressed_until
  unfolding observe_paths
  observe_paths-suppressed now [] s = refl
  observe_paths-suppressed now (path ∷ paths) s = elim (Bool-cases (is_self_write s path now)) [
    | inl own ↦ rw (own, observe_paths) (observe_paths-suppressed now paths s)
    | inr other ↦ rw (other, observe_paths) (observe_paths-suppressed now paths _)
  ]

  drop_self_writes-suppressed :
      (now : ℕ) (queued : List (List Text)) (s : Daemon W)
      → (drop_self_writes p config now queued s).suppressed_until ≡ s.suppressed_until
  unfolding drop_self_writes
  drop_self_writes-suppressed now [] s = refl
  drop_self_writes-suppressed now (paths ∷ queued) s =
      drop_self_writes-suppressed now queued (observe_paths p config now paths s)
      ∙ observe_paths-suppressed now paths s

  active_if-suppressed :
      (outcome : Result SyncEngineError SyncResult) (now : ℕ) (s : Daemon W)
      → (active_if p config outcome now s).suppressed_until ≡ s.suppressed_until
  active_if-suppressed (ok result) now s = refl
  active_if-suppressed (err error) now s = refl

  run_cycle-suppressed :
      (after : ℕ) (schedule : List Pick) (queued : List (List Text)) (trigger : Trigger)
      (s : Daemon W)
      → is_fatal_outcome (cycle p config after schedule trigger s).0 ≡ true
      → (run_cycle p config after schedule queued trigger s).suppressed_until
        ≡ some (after + wait_of s)
  unfolding run_cycle cycle send
  run_cycle-suppressed after schedule queued trigger s h =
      let answer = execute p config schedule trigger s.pending_plan s.device in
      let fatal = ap is_fatal_outcome (sym (cycle_end-outcome after answer.0 _)) ∙ h in
      drop_self_writes-suppressed after queued _
      ∙ active_if-suppressed _ after _
      ∙ cycle_end-suppressed after answer.0 _ fatal

  -- After a cycle with a fatal failure, the timer does nothing before the backoff's wait is over.
  pub fatal_suppresses :
      (after : ℕ) (schedule : List Pick) (queued : List (List Text)) (trigger : Trigger)
      (s : Daemon W)
      → is_fatal_outcome (cycle p config after schedule trigger s).0 ≡ true
      → (now later poll_due : ℕ) (next : List Pick) (messages : List (List Text))
      → now < after + wait_of s
      → on_timer p config now later poll_due next messages
          (run_cycle p config after schedule queued trigger s)
        ≡ run_cycle p config after schedule queued trigger s
  unfolding on_timer
  fatal_suppresses after schedule queued trigger s h now later poll_due next messages early =
      let until = run_cycle-suppressed after schedule queued trigger s h in
      let closed : is_suppressed
            (run_cycle p config after schedule queued trigger s).suppressed_until now
          ≡ true =
        rw until (lt→ltb now (after + wait_of s) early) in
      rw (closed, on_timer) refl
