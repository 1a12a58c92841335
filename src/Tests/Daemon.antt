-- ===== src/Tests/Daemon.antt =====
-- The theorems on the daemon and on the ETag cache, at the server of Engine.
use obsink.Base.{ℕ, ◌≡◌, ◌≢◌, refl, true, false, Option, none, some, [], ◌∷◌, arith}
use obsink.Base.Ord.{text_ord}
use obsink.Base.Text.{Text, text}
use obsink.Base.BTreeMap.{keys, insert}
use obsink.Base.Result.{ok}
use obsink.Types.{Manifest, SyncPlan, download}
use obsink.Client.{get_manifest_if_changed, modified, not_modified}
use obsink.Engine.{Device, saved}
use obsink.Engine.Remote.{fetch_remote_manifest}
use obsink.Engine.Remote.Transparent.{IsHonest, IsNamed, fetch_remote_manifest_current}
use obsink.Engine.Complete.Choices.{fails_missing}
use obsink.Daemon.{Daemon, resolve, execute, cycle}
use obsink.Daemon.Loop.{run_cycle, on_timer}
use obsink.Daemon.Watch.{Debouncer, due, next_deadline}
use obsink.Daemon.Debounce.{due_at_deadline}
use obsink.Daemon.Cycle.{execute_answers}
use obsink.Daemon.Suppressed.{fatal_suppresses}
use obsink.Tests.Engine.{platform, device, plan, config, stored}

execute_answers_example :
    fails_missing (execute platform config [] (resolve []) (some plan) device).0 ≡ false
execute_answers_example = execute_answers platform config [] (resolve []) (some plan) device

abbrev edited : Debouncer
edited = record {
  quiet = 750;
  batch = 2000;
  pending = (text "a", (20, none)) ∷ [];
  first_event = some 10;
}

due_at_deadline_example : (due edited 770 (λ path. none)).0 ≡ some (keys edited.pending)
unfolding next_deadline
due_at_deadline_example =
    due_at_deadline edited 770 770 (λ path. none) refl (omega arith) (refl, tt)

-- A device whose checkpoint file is corrupt but not fatal, and a plan with a fatal failure.
abbrev failing : SyncPlan
failing = record {
  upload = [];
  download = [];
  conflicts = [];
  failures = record { path = text "a"; kind = download; error = text "down"; fatal = true } ∷ [];
}

abbrev running : Daemon ℕ
running = record {
  device = device;
  backoff = record { base = 5; max = 300; failures = 0 };
  pending_plan = some failing;
  suppressed_until = none;
  self_writes = [];
  debouncer = edited;
  last_activity = 0;
  last_poll = 0;
  events = [];
}

fatal_suppresses_example :
    on_timer platform config 1003 1003 5 [] []
      (run_cycle platform config 1000 [] [] (resolve []) running)
    ≡ run_cycle platform config 1000 [] [] (resolve []) running
unfolding cycle
fatal_suppresses_example =
    fatal_suppresses platform config 1000 [] [] (resolve []) running refl 1003 1003 5 [] []
      (omega arith)

abbrev on_server : Manifest
on_server = (text "a", stored) ∷ []

fresh :
    (etag tag : Option Text) (w : ℕ) (m : Manifest)
    → (get_manifest_if_changed platform.transport etag w).0 ≡ ok (modified m tag)
    → m ≡ on_server
unfolding get_manifest_if_changed insert text_ord
fresh none tag w m h = ground (arith, h)
fresh (some e) tag w m h = absurd (ground (arith, h))

conditional : (w : ℕ) → (get_manifest_if_changed platform.transport none w).0 ≢ ok not_modified
unfolding get_manifest_if_changed insert text_ord
conditional w h = ground (arith, h)

honest : IsHonest platform (λ w. on_server) (λ tag m. m ≡ on_server)
honest = record {
  fresh = fresh;
  tagged = λ etag tag w m h. fresh etag (some tag) w m h;
  unchanged = λ etag w m e h. e;
  conditional = conditional;
}

abbrev cached : Device ℕ
cached = record device {
  remote_cache = saved (record { etag = some (text "1"); manifest = on_server });
}

fetch_remote_manifest_current_example :
    ((m : Manifest) → (fetch_remote_manifest platform cached).0 ≡ ok m → m ≡ on_server)
    × IsNamed platform
        (λ w. on_server)
        (λ tag m. m ≡ on_server)
        honest
        (fetch_remote_manifest platform cached).1.remote_cache
fetch_remote_manifest_current_example =
    fetch_remote_manifest_current platform (λ w. on_server) (λ tag m. m ≡ on_server) honest cached
      (λ tag e. refl)
