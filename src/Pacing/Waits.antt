-- ===== src/Pacing/Waits.antt =====
-- The waits of a backoff grow up to the cap.
use obsink.Base.{ℕ, zero, suc, ◌*◌, ◌≤◌, ◌≡◌, refl, ◌∙◌, ap, arith}
use native.Mathlib.Nat.{pow-succ', mul-le-mul_left}
use obsink.Pacing.{checked_mul, saturating_pow2, u32_max, backoff_wait, Backoff, next_wait, reset}

pow_grows : (n : ℕ) → saturating_pow2 n ≤ saturating_pow2 (suc n)
unfolding saturating_pow2
pow_grows n = omega (arith, pow-succ' 2 n)

mul_grows : (b m n : ℕ) → m ≤ n → b * m ≤ b * n
mul_grows b m n h = mul-le-mul_left b h

-- The wait never exceeds the cap, and one more failure never makes it shorter.
pub backoff_grows :
    (base max failures : ℕ)
    → (backoff_wait base max failures ≤ backoff_wait base max (suc failures))
      × (backoff_wait base max failures ≤ max)
unfolding backoff_wait checked_mul
backoff_grows base max failures = ground (
  arith,
  mul_grows base (saturating_pow2 failures) (saturating_pow2 (suc failures)) (pow_grows failures),
)

-- The backoff after some failures since it was reset.
abbrev pub after_failures : ℕ → Backoff → Backoff
after_failures zero b = b
after_failures (suc n) b = (next_wait (after_failures n b)).1

after_failures-fields :
    (n : ℕ) (b : Backoff)
    → n ≤ u32_max
    → b.failures ≡ 0
    → after_failures n b ≡ record b { failures = n }
unfolding next_wait
after_failures-fields zero b h start = ap (λ (f : ℕ). record b { failures = f }) start
after_failures-fields (suc n) b h start =
    let rest = after_failures-fields n b (omega arith) start in
    ap (λ (c : Backoff). (next_wait c).1) rest
    ∙ ap (λ (f : ℕ). record b { failures = f }) (omega arith)

-- After a reset the next wait after `n` failures is `backoff_wait` for `n`, however many failures
-- there were before the reset, for `n` up to the largest `u32`.
pub reset_waits :
    (b : Backoff) (n : ℕ)
    → n ≤ u32_max
    → (next_wait (after_failures n (reset b))).0 ≡ backoff_wait b.base b.max n
unfolding next_wait reset
reset_waits b n h =
    ap (λ (c : Backoff). backoff_wait c.base c.max c.failures)
      (after_failures-fields n (reset b) h refl)
