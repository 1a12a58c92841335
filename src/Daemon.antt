-- ===== src/Daemon.antt =====
-- core/src/daemon.rs: the loop that syncs one vault. An `Instant` and a `Duration` are nanoseconds;
-- an iteration of the loop is a step with the instant at which it wakes and the one at which its
-- cycle is over, where the code reads the clock several times. The channels to the host, the
-- watcher and the log are left out; the events that the daemon sends are a list.
pub mod Watch
pub mod Loop
pub mod Debounce
pub mod Cycle
pub mod Suppressed
pub mod OwnWrites
use obsink.Base.{
  ℕ, ◌+◌, ◌-◌, ◌*◌, Bool, true, false, not, ◌&&◌, ◌||◌, Option, none, some, List, [], ◌∷◌, ◌++◌,
  any, find, filter, map, map_option, ltb, leb, is_some, if◌then◌else◌,
}
use Prim.Native.Nat.{min, max}
use obsink.Base.Ord.{◌==◌, text_ord}
use obsink.Base.Text.{Text, text}
use obsink.Base.BTreeMap.{Map, get, insert, keys, contains}
use obsink.Base.Result.{Result, ok, err}
use obsink.Base.Io.{Io, ◌>>=◌, return}
use obsink.Types.{
  SyncAction, Conflict, SyncFailure, SyncPlan, SyncResult, ConflictResolution, defer,
  from_late_conflicts,
}
use obsink.Pacing.{Backoff, PollPacing, interval, next_wait, reset}
use obsink.Pacing
use obsink.Hasher.{Stat, stat_eq, stat_of, File}
use obsink.Daemon.Watch.{
  Pending, Debouncer, new_debouncer, observe, last_event, next_deadline, same_stat, due_entry,
  due_loop, take_all, due,
}
use obsink.Engine.{SyncEngineError, Device, Platform, VaultConfig, is_fatal_sync_error}
use obsink.Engine.Downloads.{Pick}
use obsink.Engine.Plan.{prepare_sync}
use obsink.Engine.Complete.{complete_sync}
use obsink.Engine.Remote.{remote_changed}

pub record DaemonOptions : Type 0 where
  pub quiet : ℕ
  pub batch : ℕ
  pub poll_active : ℕ
  pub poll_idle : ℕ
  pub active_window : ℕ
  pub backoff_base : ℕ
  pub backoff_max : ℕ

abbrev pub second : ℕ
second = 1000000000

unfoldable pub default_options : DaemonOptions
default_options = record {
  quiet = 750 * 1000000;
  batch = 2 * second;
  poll_active = 5 * second;
  poll_idle = 60 * second;
  active_window = 60 * second;
  backoff_base = 5 * second;
  backoff_max = 5 * 60 * second;
}

unfoldable pub poll_interval : DaemonOptions → ℕ → ℕ → ℕ
unfolding interval
poll_interval options now last_activity =
    interval
      (record {
        active = options.poll_active;
        idle = options.poll_idle;
        active_window = options.active_window;
      })
      (now - last_activity)

unfoldable pub defer_the_rest : SyncPlan → List ConflictResolution → List ConflictResolution
defer_the_rest plan resolutions =
    resolutions
    ++ map (λ (c : Conflict). record { path = c.path; choice = defer })
        (filter
          (λ (c : Conflict). not (any (λ (r : ConflictResolution). r.path == c.path) resolutions))
          plan.conflicts)

pub data Trigger : Type 0 where
  local remote manual : Trigger
  resolve : List ConflictResolution → Trigger

pub data DaemonEvent : Type 0 where
  started sync_started stopped : DaemonEvent
  sync_finished : SyncResult → DaemonEvent
  conflicts_pending : SyncPlan → DaemonEvent
  failed : Text → Bool → Option ℕ → DaemonEvent

-- The daemon's `State` with the variables of its loop and the device that it syncs.
pub record Daemon (W : Type 0) : Type 0 where
  pub device : Device W
  pub backoff : Backoff
  pub pending_plan : Option SyncPlan
  pub suppressed_until : Option ℕ
  pub self_writes : Map Text ℕ
  pub debouncer : Debouncer
  pub last_activity : ℕ
  pub last_poll : ℕ
  pub events : List DaemonEvent

-- SELF_WRITE_GRACE
abbrev pub self_write_grace : ℕ
self_write_grace = 3 * second

-- The message of the failure that suppresses the triggers after a cycle, if there is one.
unfoldable pub fatal_message : SyncResult → Option Text
fatal_message result = elim (find (λ (f : SyncFailure). f.fatal) result.failures) [
  | some failure ↦ some failure.error
  | none ↦ map_option (λ error. text "checkpoint: " ++ error) result.checkpoint_error
]

unfoldable pub written_at : ℕ → List SyncAction → Map Text ℕ
written_at now [] = []
written_at now (action ∷ actions) = insert action.path now (written_at now actions)

module _ {W : Type 0} where
  unfoldable pub send : DaemonEvent → Daemon W → Daemon W
  send event s = record s { events = s.events ++ event ∷ [] }

  unfoldable pub is_self_write : Daemon W → Text → ℕ → Bool
  is_self_write s path now = elim (get s.self_writes path) [
    | none ↦ false
    | some written ↦ ltb (now - written) self_write_grace
  ]

  -- A fatal failure suppresses the triggers for the backoff's wait.
  unfoldable pub report_failure : ℕ → Text → Bool → Daemon W → Daemon W
  unfolding next_wait send
  report_failure now message true s =
      let (wait, backoff) = next_wait s.backoff in
      send (failed message true (some wait))
        (record s { backoff = backoff; suppressed_until = some (now + wait) })
  report_failure now message false s = send (failed message false none) s

  unfoldable pub settle_backoff : ℕ → Option Text → Daemon W → Daemon W
  unfolding report_failure reset
  settle_backoff now none s = record s { backoff = reset s.backoff }
  settle_backoff now (some message) s = report_failure now message true s

  unfoldable pub send_pending : Option SyncPlan → Daemon W → Daemon W
  unfolding send
  send_pending none s = s
  send_pending (some plan) s = send (conflicts_pending plan) s

  -- A cycle that came to a result.
  unfoldable pub cycle_ok : ℕ → SyncResult → Daemon W → Daemon W
  unfolding fatal_message settle_backoff written_at send_pending send from_late_conflicts
  cycle_ok after result s =
      let s' = settle_backoff after (fatal_message result) s in
      let plan = from_late_conflicts result in
      send (sync_finished result) (
        send_pending plan
          (record s' { self_writes = written_at after result.download; pending_plan = plan }))

module _ {W : Type 0} (p : Platform W) (config : VaultConfig) where
  abbrev pub with_plan :
      List ConflictResolution → SyncPlan → Io SyncEngineError (Device W) SyncResult
  with_plan resolutions plan = complete_sync p config plan (defer_the_rest plan resolutions)

  -- The downloads of the cycle run in the order of `schedule`.
  unfoldable pub execute :
      List Pick → Trigger → Option SyncPlan → Io SyncEngineError (Device W) SyncResult
  unfolding prepare_sync complete_sync defer_the_rest
  execute schedule (resolve resolutions) (some plan) = with_plan resolutions plan
  execute schedule (resolve resolutions) none =
      prepare_sync p config schedule >>= with_plan resolutions
  execute schedule local pending = prepare_sync p config schedule >>= with_plan []
  execute schedule remote pending = prepare_sync p config schedule >>= with_plan []
  execute schedule manual pending = prepare_sync p config schedule >>= with_plan []

  abbrev pub cycle_end :
      ℕ
      → Result SyncEngineError SyncResult
      → Daemon W
      → Result SyncEngineError SyncResult × Daemon W
  cycle_end after (ok result) s = (ok result, cycle_ok after result s)
  cycle_end after (err error) s =
      (err error, report_failure after (p.error_text error) (is_fatal_sync_error error) s)

  unfoldable pub cycle :
      ℕ → List Pick → Trigger → Daemon W → Result SyncEngineError SyncResult × Daemon W
  unfolding execute cycle_ok report_failure is_fatal_sync_error send
  cycle after schedule trigger s =
      let (answer, device) = execute schedule trigger s.pending_plan s.device in
      cycle_end after answer (record (send sync_started s) { device = device })

  -- `stat_of` of a path of the vault.
  unfoldable pub stat_now : Daemon W → Text → Option Stat
  unfolding stat_of
  stat_now s path = elim (get s.device.files (p.directory_entry path)) [
    | none ↦ none
    | some file ↦ stat_of file
  ]

  -- The paths of watcher messages, without the daemon's own writes.
  unfoldable pub observe_paths : ℕ → List Text → Daemon W → Daemon W
  unfolding is_self_write observe stat_now
  observe_paths now [] s = s
  observe_paths now (path ∷ paths) s = observe_paths now paths (
      if is_self_write s path now
      then s
      else record s { debouncer = observe s.debouncer path (stat_now s path) now })

  -- The messages that are queued after a cycle.
  unfoldable pub drop_self_writes : ℕ → List (List Text) → Daemon W → Daemon W
  unfolding observe_paths
  drop_self_writes now [] s = s
  drop_self_writes now (paths ∷ queued) s = drop_self_writes now queued (observe_paths now paths s)
