-- ===== src/Pacing.antt =====
-- core/src/pacing.rs: how long a driver waits. A `Duration` is its nanoseconds.
pub mod Waits
use obsink.Base.{
  ℕ, ◌+◌, ◌-◌, ◌*◌, ◌^◌, Bool, true, false, Option, none, some, ltb, leb, unwrap_or, if◌then◌else◌,
}
use Prim.Native.Nat.{min}

-- `Duration::MAX`.
abbrev pub duration_max : ℕ
duration_max = (2 ^ 64 - 1) * 1000000000 + 999999999

-- `Duration::checked_mul`.
unfoldable pub checked_mul : ℕ → ℕ → Option ℕ
checked_mul d n = if leb (d * n) duration_max then some (d * n) else none

abbrev pub u32_max : ℕ
u32_max = 2 ^ 32 - 1

-- `2_u32.saturating_pow`.
unfoldable pub saturating_pow2 : ℕ → ℕ
saturating_pow2 n = min (2 ^ n) u32_max

unfoldable pub backoff_wait : ℕ → ℕ → ℕ → ℕ
unfolding checked_mul saturating_pow2
backoff_wait base max failures =
    min (unwrap_or (checked_mul base (saturating_pow2 failures)) max) max

pub record Backoff : Type 0 where
  pub base : ℕ
  pub max : ℕ
  pub failures : ℕ

abbrev pub new : ℕ → ℕ → Backoff
new base max = record { base = base; max = max; failures = 0 }

unfoldable pub next_wait : Backoff → ℕ × Backoff
unfolding backoff_wait
next_wait b =
    (backoff_wait b.base b.max b.failures, record b { failures = min (b.failures + 1) u32_max })

unfoldable pub reset : Backoff → Backoff
reset b = record b { failures = 0 }

pub record PollPacing : Type 0 where
  pub active : ℕ
  pub idle : ℕ
  pub active_window : ℕ

unfoldable pub interval : PollPacing → ℕ → ℕ
interval pacing since_activity =
    if ltb since_activity pacing.active_window then pacing.active else pacing.idle
