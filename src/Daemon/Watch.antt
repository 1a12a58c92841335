-- ===== src/Daemon/Watch.antt =====
-- core/src/daemon.rs: the debouncer of the watcher's events.
use obsink.Base.{
  ℕ, ◌+◌, ◌-◌, Bool, true, false, ◌&&◌, Option, none, some, List, [], ◌∷◌, ltb, leb, if◌then◌else◌,
}
use Prim.Native.Nat.{min, max}
use obsink.Base.Ord.{text_ord}
use obsink.Base.Text.{Text}
use obsink.Base.BTreeMap.{Map, insert, keys}
use obsink.Hasher.{Stat, stat_eq}

abbrev pub Pending : Type 0
Pending = Map Text (ℕ × Option Stat)

pub record Debouncer : Type 0 where
  pub quiet : ℕ
  pub batch : ℕ
  pub pending : Pending
  pub first_event : Option ℕ

unfoldable pub new_debouncer : ℕ → ℕ → Debouncer
new_debouncer quiet batch = record {
  quiet = quiet;
  batch = batch;
  pending = [];
  first_event = none;
}

-- `get_or_insert`.
abbrev or_now : Option ℕ → ℕ → Option ℕ
or_now none now = some now
or_now (some first) now = some first

unfoldable pub observe : Debouncer → Text → Option Stat → ℕ → Debouncer
observe d path stat now = record d {
  first_event = or_now d.first_event now;
  pending = insert path (now, stat) d.pending;
}

-- The greatest instant of the pending paths.
unfoldable pub last_event : Pending → Option ℕ
last_event [] = none
last_event ((path, (at, stat)) ∷ pending) = elim (last_event pending) [
  | none ↦ some at
  | some later ↦ some (max at later)
]

unfoldable pub next_deadline : Debouncer → Option ℕ
unfolding last_event
next_deadline d = elim d.first_event [
  | none ↦ none
  | some first ↦ elim (last_event d.pending) [
    | none ↦ none
    | some last ↦ some (min (first + d.batch) (last + d.quiet))
  ]
]

-- The derived `PartialEq` of `Option<Stat>`.
unfoldable pub same_stat : Option Stat → Option Stat → Bool
unfolding stat_eq
same_stat none none = true
same_stat (some a) (some b) = stat_eq a b
same_stat _ _ = false

-- One pending path: whether it is quiet, and re-armed if its stat moved.
unfoldable pub due_entry : ℕ → ℕ → Option Stat → ℕ × Option Stat → (ℕ × Option Stat) × Bool
unfolding same_stat
due_entry quiet now current (at, stat) =
    if ltb (now - at) quiet
    then ((at, stat), false)
    else if same_stat current stat
    then ((at, stat), true)
    else ((now, current), false)

unfoldable pub due_loop : ℕ → ℕ → (Text → Option Stat) → Pending → Pending × Bool
unfolding due_entry
due_loop quiet now stat_now [] = ([], true)
due_loop quiet now stat_now ((path, entry) ∷ pending) =
    let (entry', is_quiet) = due_entry quiet now (stat_now path) entry in
    let (pending', all_quiet) = due_loop quiet now stat_now pending in
    ((path, entry') ∷ pending', is_quiet && all_quiet)

unfoldable pub take_all : Debouncer → List Text × Debouncer
take_all d = (keys d.pending, record d { pending = []; first_event = none })

abbrev released : List Text × Debouncer → Option (List Text) × Debouncer
released (paths, d) = (some paths, d)

unfoldable pub due : Debouncer → ℕ → (Text → Option Stat) → Option (List Text) × Debouncer
unfolding due_loop take_all
due d now stat_now = elim d.first_event [
  | none ↦ (none, d)
  | some first ↦
      if leb d.batch (now - first)
      then released (take_all d)
      else let (pending, all_quiet) = due_loop d.quiet now stat_now d.pending in
        if all_quiet
        then released (take_all (record d { pending = pending }))
        else (none, record d { pending = pending })
]
