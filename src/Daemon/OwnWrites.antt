-- ===== src/Daemon/OwnWrites.antt =====
-- A cycle's own writes come back through the watcher and start nothing.
use obsink.Base.{
  ℕ, ◌+◌, ◌-◌, ◌<◌, ◌≡◌, refl, ◌∙◌, ap, true, Option, none, some, List, [], ◌∷◌, any, All, arith,
  lt→ltb,
}
use obsink.Base.Ord.{◌==◌, text_ord}
use obsink.Base.Text.{Text}
use obsink.Base.BTreeMap.{get, get-insert}
use obsink.Types.{SyncAction, SyncPlan, SyncResult, from_late_conflicts}
use obsink.Engine.{Platform, VaultConfig}
use obsink.Daemon.{
  Daemon, send, send_pending, cycle_ok, observe_paths, is_self_write, written_at, self_write_grace,
}

get-written_at :
    (now : ℕ) (actions : List SyncAction) (path : Text)
    → any (λ (a : SyncAction). a.path == path) actions ≡ true
    → get (written_at now actions) path ≡ some now
unfolding written_at
get-written_at now [] path h = absurd (ground (arith, h))
get-written_at now (a ∷ actions) path h =
    ground (
      arith,
      get-insert a.path path now (written_at now actions),
      get-written_at now actions path,
      h,
    )

module _ {W : Type 0} where
  send_pending-self_writes :
      (plan : Option SyncPlan) (s : Daemon W) → (send_pending plan s).self_writes ≡ s.self_writes
  unfolding send_pending send
  send_pending-self_writes none s = refl
  send_pending-self_writes (some plan) s = refl

  cycle_ok-self_writes :
      (after : ℕ) (result : SyncResult) (s : Daemon W)
      → (cycle_ok after result s).self_writes ≡ written_at after result.download
  unfolding cycle_ok send
  cycle_ok-self_writes after result s = send_pending-self_writes (from_late_conflicts result) _

  own_write :
      (after now : ℕ) (result : SyncResult) (s : Daemon W) (path : Text)
      → now < after + self_write_grace
      → any (λ (a : SyncAction). a.path == path) result.download ≡ true
      → is_self_write (cycle_ok after result s) path now ≡ true
  unfolding is_self_write
  own_write after now result s path early h =
      let known : get (cycle_ok after result s).self_writes path ≡ some after =
        ap (λ m. get m path) (cycle_ok-self_writes after result s)
        ∙ get-written_at after result.download path h in
      rw (known, is_self_write) (lt→ltb (now - after) self_write_grace (omega (arith, early)))

  -- Within the grace period after a cycle, watcher messages that name only paths of its downloads
  -- change nothing.
  pub own_writes_ignored :
      (p : Platform W) (config : VaultConfig) (after now : ℕ) (result : SyncResult) (s : Daemon W)
      (paths : List Text)
      → now < after + self_write_grace
      → All (λ path. any (λ (a : SyncAction). a.path == path) result.download ≡ true) paths
      → observe_paths p config now paths (cycle_ok after result s) ≡ cycle_ok after result s
  unfolding observe_paths
  own_writes_ignored p config after now result s [] early own = refl
  own_writes_ignored p config after now result s (path ∷ paths) early own =
      rw (own_write after now result s path early own.0)
        (own_writes_ignored p config after now result s paths early own.1)
