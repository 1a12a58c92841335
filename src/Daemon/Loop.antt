-- ===== src/Daemon/Loop.antt =====
-- core/src/daemon.rs: the branches of the loop of `run_daemon`, and when it wakes.
use obsink.Base.{ℕ, ◌+◌, Bool, true, false, Option, none, some, List, ltb, leb, is_some}
use Prim.Native.Nat.{min, max}
use obsink.Base.Ord.{text_ord}
use obsink.Base.Text.{Text}
use obsink.Base.Result.{Result, ok, err}
use obsink.Types.{SyncResult, ConflictResolution}
use obsink.Engine.{SyncEngineError, Platform, VaultConfig, is_fatal_sync_error}
use obsink.Engine.Downloads.{Pick}
use obsink.Engine.Remote.{remote_changed}
use obsink.Daemon.Watch.{next_deadline, due}
use obsink.Daemon.{
  DaemonOptions, Daemon, Trigger, local, remote, manual, resolve, report_failure, poll_interval,
  cycle, drop_self_writes, observe_paths, stat_now,
}

abbrev pub is_suppressed : Option ℕ → ℕ → Bool
is_suppressed none now = false
is_suppressed (some until) now = ltb now until

abbrev earlier : ℕ → Option ℕ → ℕ
earlier wake none = wake
earlier wake (some deadline) = min wake deadline

abbrev not_before : ℕ → Option ℕ → ℕ
not_before wake none = wake
not_before wake (some until) = max wake until

module _ {W : Type 0} (p : Platform W) (config : VaultConfig) where
  abbrev pub active_if : Result SyncEngineError SyncResult → ℕ → Daemon W → Daemon W
  active_if (ok result) now s = record s { last_activity = now }
  active_if (err error) now s = s

  -- A cycle and what follows it in each of its uses.
  unfoldable pub run_cycle : ℕ → List Pick → List (List Text) → Trigger → Daemon W → Daemon W
  unfolding cycle drop_self_writes
  run_cycle after schedule queued trigger s =
      let (outcome, s') = cycle p config after schedule trigger s in
      drop_self_writes p config after queued (active_if outcome after s')

  unfoldable pub on_sync_now : ℕ → List Pick → List (List Text) → Daemon W → Daemon W
  unfolding run_cycle
  on_sync_now after schedule queued s = run_cycle after schedule queued manual s

  unfoldable pub on_resolve :
      ℕ → List Pick → List (List Text) → List ConflictResolution → Daemon W → Daemon W
  unfolding cycle drop_self_writes
  on_resolve after schedule queued resolutions s =
      let (outcome, s') = cycle p config after schedule (resolve resolutions) s in
      drop_self_writes p config after queued (record s' { last_activity = after })

  unfoldable pub on_paths : ℕ → List Text → Daemon W → Daemon W
  unfolding observe_paths
  on_paths now paths s = record (observe_paths p config now paths s) { last_activity = now }

  abbrev polled :
      ℕ → List Pick → List (List Text) → Result SyncEngineError Bool → Daemon W → Daemon W
  polled after schedule queued (ok true) s = run_cycle after schedule queued remote s
  polled after schedule queued (ok false) s = s
  polled after schedule queued (err error) s =
      report_failure after (p.error_text error) (is_fatal_sync_error error) s

  unfoldable pub poll_remote : ℕ → ℕ → List Pick → List (List Text) → Daemon W → Daemon W
  unfolding remote_changed run_cycle report_failure is_fatal_sync_error
  poll_remote now after schedule queued s =
      let (answer, device) = remote_changed p s.device in
      polled after schedule queued answer (record s { last_poll = now; device = device })

  -- The timer: suppressed, or a local cycle, or a poll. `poll_due` is the instant that the loop
  -- computed before it slept.
  unfoldable pub on_timer : ℕ → ℕ → ℕ → List Pick → List (List Text) → Daemon W → Daemon W
  unfolding due run_cycle poll_remote stat_now
  on_timer now after poll_due schedule queued s = elim (is_suppressed s.suppressed_until now) [
    | true ↦ s
    | false ↦
        let (paths, debouncer) = due s.debouncer now (stat_now p config s) in
        let s' = record s { suppressed_until = none; debouncer = debouncer } in
        elim (is_some paths) [
          | true ↦ run_cycle after schedule queued local s'
          | false ↦ elim (leb poll_due now) [
            | true ↦ poll_remote now after schedule queued s'
            | false ↦ s'
          ]
        ]
  ]

  -- When the loop wakes for the timer.
  unfoldable pub wake_at : DaemonOptions → ℕ → Daemon W → ℕ
  unfolding poll_interval next_deadline
  wake_at options now s =
      let poll_due = s.last_poll + poll_interval options now s.last_activity in
      not_before (earlier poll_due (next_deadline s.debouncer)) s.suppressed_until
