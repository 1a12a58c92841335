-- ===== src/Daemon/Debounce.antt =====
-- The debouncer: it loses no path, and it is ready when the loop wakes for it.
use obsink.Base.{
  ℕ, ◌+◌, ◌-◌, ◌≤◌, ◌≡◌, refl, ap, true, Option, none, some, List, [], ◌∷◌, arith, inl, inr,
  Bool-cases, Option-cases, leb, All,
}
use Prim.Native.Nat.{min}
use obsink.Base.Ord.{==_refl, nat_ord}
use obsink.Base.Text.{Text}
use obsink.Base.BTreeMap.{keys}
use obsink.Hasher.{Stat, stat_eq}
use obsink.Daemon.Watch.{
  Debouncer, Pending, due, due_loop, due_entry, take_all, same_stat, last_event, next_deadline,
}

module _ (quiet now : ℕ) (stat_now : Text → Option Stat) where
  keys-due_loop : (pending : Pending) → keys (due_loop quiet now stat_now pending).0 ≡ keys pending
  unfolding due_loop keys
  keys-due_loop [] = refl
  keys-due_loop ((path, entry) ∷ pending) = ap (λ ks. path ∷ ks) (keys-due_loop pending)

-- Paths that are released are all the pending ones and are pending no longer; otherwise the same
-- paths stay pending.
pub due_keeps_paths :
    (d : Debouncer) (now : ℕ) (stat_now : Text → Option Stat)
    → ((due d now stat_now).0 ≡ none → keys (due d now stat_now).1.pending ≡ keys d.pending)
      × ((paths : List Text)
          → (due d now stat_now).0 ≡ some paths
          → (paths ≡ keys d.pending) × ((due d now stat_now).1.pending ≡ []))
unfolding due take_all
due_keeps_paths d now stat_now = elim (Option-cases d.first_event) [
  | inl e ↦ rw (e, due) ((λ h. refl, λ paths h. absurd (ground (arith, h))))
  | inr (first, e) ↦ elim (Bool-cases (leb d.batch (now - first))) [
    | inl full ↦
        rw (e, due, full) ((λ h. absurd (ground (arith, h)), λ paths h. (ground (arith, h), refl)))
    | inr waits ↦ elim (Bool-cases (due_loop d.quiet now stat_now d.pending).1) [
      | inl ready ↦
          rw (e, due, waits, ready)
            ((
              λ h. absurd (ground (arith, h)),
              λ paths h. (ground (arith, h, keys-due_loop d.quiet now stat_now d.pending), refl),
            ))
      | inr busy ↦
          rw (e, due, waits, busy)
            ((
              λ h. keys-due_loop d.quiet now stat_now d.pending,
              λ paths h. absurd (ground (arith, h)),
            ))
    ]
  ]
]

same_stat_refl : (stat : Option Stat) → same_stat stat stat ≡ true
unfolding same_stat stat_eq
same_stat_refl none = refl
same_stat_refl (some s) =
    ground (arith, ==_refl s.mtime_secs, ==_refl s.mtime_nanos, ==_refl s.size)

-- Every pending path still has the stat of its last event.
abbrev pub Unchanged : (Text → Option Stat) → Pending → Type 0
Unchanged stat_now = All λ (e : Text × (ℕ × Option Stat)). stat_now e.0 ≡ e.1.1

no_last : (pending : Pending) → last_event pending ≡ none → pending ≡ []
unfolding last_event
no_last [] h = refl
no_last ((path, entry) ∷ pending) h = elim (Option-cases (last_event pending)) [
  | inl e ↦ absurd (ground (arith, h, e))
  | inr (later, e) ↦ absurd (ground (arith, h, e))
]

due_entry_quiet :
    (quiet now at : ℕ) (current stat : Option Stat)
    → current ≡ stat
    → at + quiet ≤ now
    → (due_entry quiet now current (at, stat)).1 ≡ true
unfolding due_entry
due_entry_quiet quiet now at current stat same ready =
    rw same (ground (arith, same_stat_refl stat, ready))

due_loop_quiet :
    (quiet now last : ℕ) (stat_now : Text → Option Stat) (pending : Pending)
    → Unchanged stat_now pending
    → last_event pending ≡ some last
    → last + quiet ≤ now
    → (due_loop quiet now stat_now pending).1 ≡ true
unfolding due_loop due_entry last_event
due_loop_quiet quiet now last stat_now [] same h ready = refl
due_loop_quiet quiet now last stat_now ((path, (at, stat)) ∷ pending) same h ready =
    elim (Option-cases (last_event pending)) [
      | inl e ↦
          let none_left : pending ≡ [] = no_last pending e in
          let quiet_loop = ap (λ ps. (due_loop quiet now stat_now ps).1) none_left in
          ground (
            arith,
            due_entry_quiet quiet now at (stat_now path) stat same.0,
            quiet_loop,
            h,
            e,
            ready,
          )
      | inr (later, e) ↦ ground (
        arith,
        due_entry_quiet quiet now at (stat_now path) stat same.0,
        due_loop_quiet quiet now later stat_now pending same.1 e,
        h,
        e,
        ready,
      )
    ]

-- At the deadline for which the loop sleeps, and after it, all pending paths are released, if each
-- has the stat of its last event.
pub due_at_deadline :
    (d : Debouncer) (now deadline : ℕ) (stat_now : Text → Option Stat)
    → next_deadline d ≡ some deadline
    → deadline ≤ now
    → Unchanged stat_now d.pending
    → (due d now stat_now).0 ≡ some (keys d.pending)
unfolding due next_deadline take_all
due_at_deadline d now deadline stat_now h ready same = elim (Option-cases d.first_event) [
  | inl e ↦ absurd (let bad = (rw (e, next_deadline) at h) in ground (arith, bad))
  | inr (first, e) ↦ elim (Option-cases (last_event d.pending)) [
    | inl none_left ↦
        absurd (let bad = (rw (e, next_deadline, none_left) at h) in ground (arith, bad))
    | inr (last, l) ↦
        let at_deadline : some (min (first + d.batch) (last + d.quiet)) ≡ some deadline =
          rw (e, next_deadline, l) at h in
        elim (Bool-cases (leb d.batch (now - first))) [
          | inl full ↦ rw (e, due, full) refl
          | inr waits ↦
              let quiet_since : last + d.quiet ≤ now = ground (arith, at_deadline, ready, waits) in
              let all_quiet =
                due_loop_quiet d.quiet now last stat_now d.pending same l quiet_since in
              rw (e, due, waits, all_quiet) (ap some (keys-due_loop d.quiet now stat_now d.pending))
        ]
  ]
]
