-- ===== src/Server/Auth/Once.antt =====
-- server/src/auth/invites.rs: the requests on the table of invites as steps, and the limiter.
use obsink.Base.{
  ℕ, suc, ◌+◌, ◌-◌, ◌≤◌, ◌<◌, ◌≡◌, ◌≢◌, refl, ◌∙◌, ap, true, false, inl, inr, Option, none, some,
  List, [], ◌∷◌, All, length, leb, arith, Option-cases, Bool-cases, is_some,
}
use obsink.Base.Ord.{◌==◌, ==_iff, ==_refl, nat_ord, text_ord}
use obsink.Base.Text.{Text, text}
use obsink.Base.BTreeMap.{get, insert, get-insert}
use obsink.Base.Result.{ok, err}
use obsink.Server.Error.{ApiError, status}
use obsink.Server.Db.{stored}
use obsink.Server.Auth.Invites.{
  RedeemLimiter, InviteRow, Invites, limiter_check, record_failure, redeem_window,
  redeem_max_failures, is_usable, redeem, given_code, authorize_signup, mark_used, create_once,
  minted, forget_user, refers_to,
}

-- The requests that change the table; an account that is spared is not deleted.
pub data Step (spared : Option Text) (s : Invites) : Invites → Type 0 where
  use_code : (code user_id : Text) (now : ℕ) → Step spared s (mark_used code user_id now s)
  mint :
      (code : Text) (created_by : Option Text) (now ttl_secs : ℕ) (t : Invites)
      → create_once code created_by now ttl_secs s ≡ some t
      → Step spared s t
  forget : (user_id : Text) → spared ≢ some user_id → Step spared s (forget_user user_id s)

pub data Reach (spared : Option Text) (s : Invites) : Invites → Type 0 where
  here : Reach spared s s
  next : {t u : Invites} → Reach spared s t → Step spared t u → Reach spared s u

-- A code that has been used, and by whom it was made.
abbrev pub IsSpent : Option Text → Text → Invites → Type 0
IsSpent maker code s =
    (row : InviteRow) × (get s code ≡ some row)
    × (row.created_by ≡ maker)
    × (is_some row.used_at ≡ true)

mark_used-IsSpent :
    (maker : Option Text) (code other user_id : Text) (now : ℕ) (s : Invites)
    → IsSpent maker code s
    → IsSpent maker code (mark_used other user_id now s)
unfolding mark_used
mark_used-IsSpent maker code other user_id now s (row, found, made, spent) =
    elim (Option-cases (get s other)) [
      | inl absent ↦ rw (absent, mark_used) (row, found, made, spent)
      | inr (own, is_own) ↦
          rw (is_own, mark_used)
            (elim (Bool-cases (other == code)) [
              | inl same ↦ (
                record own { used_by = some user_id; used_at = some (stored now) },
                rw (get-insert, same) refl,
                ground (arith, ==_iff other code, same, is_own, found, made),
                refl,
              )
              | inr apart ↦ (row, rw (get-insert, apart) found, made, spent)
            ])
    ]

create_once-IsSpent :
    (maker : Option Text) (code fresh : Text) (created_by : Option Text) (now ttl_secs : ℕ)
    (s t : Invites)
    → create_once fresh created_by now ttl_secs s ≡ some t
    → IsSpent maker code s
    → IsSpent maker code t
unfolding create_once
create_once-IsSpent maker code fresh created_by now ttl_secs s t stored_row
      (row, found, made, spent) =
    elim (Option-cases (get s fresh)) [
      | inr (taken, is_taken) ↦ absurd (ground (arith, stored_row, is_taken))
      | inl free ↦
          let apart : (fresh == code) ≡ false = ground (arith, ==_iff fresh code, free, found) in
          let is_t : some (insert fresh (minted created_by now ttl_secs) s) ≡ some t =
            rw (free, create_once) at stored_row in
          let e : insert fresh (minted created_by now ttl_secs) s ≡ t = cc is_t in
          (row, rw (← e) (rw (get-insert, apart) found), made, spent)
    ]

not-refers_to :
    (user_id : Text) (maker : Option Text) → maker ≢ some user_id → refers_to user_id maker ≡ false
not-refers_to user_id none h = refl
not-refers_to user_id (some m) h =
    ground (arith, ==_iff m user_id, λ (e : m ≡ user_id). h (ap some e))

forget_user-IsSpent :
    (maker : Option Text) (code user_id : Text) (s : Invites)
    → maker ≢ some user_id
    → IsSpent maker code s
    → IsSpent maker code (forget_user user_id s)
unfolding forget_user get
forget_user-IsSpent maker code user_id [] spared (row, found, made, spent) = cc found
forget_user-IsSpent maker code user_id ((k, r) ∷ s) spared (row, found, made, spent) =
    elim (Bool-cases (k == code)) [
      | inr apart ↦
          let (row', found', made', spent') =
            forget_user-IsSpent maker code user_id s spared
              (row, (rw apart at found), made, spent) in
          elim (Bool-cases (refers_to user_id r.created_by)) [
            | inl dropped ↦ (row', rw dropped found', made', spent')
            | inr kept ↦ (row', rw (kept, apart) found', made', spent')
          ]
      | inl same ↦
          let e : r ≡ row = ground (arith, found, same) in
          let kept : refers_to user_id r.created_by ≡ false =
            rw (e, made) (not-refers_to user_id maker spared) in
          elim (Bool-cases (refers_to user_id r.used_by)) [
            | inl own ↦
                (record r { used_by = none }, rw (kept, same, own) refl, rw e made, rw e spent)
            | inr other ↦ (r, rw (kept, same, other) refl, rw e made, rw e spent)
          ]
    ]

Step-IsSpent :
    {s t : Invites} (maker : Option Text) (code : Text)
    → Step maker s t
    → IsSpent maker code s
    → IsSpent maker code t
Step-IsSpent {s} maker code (use_code other user_id now) spent =
    mark_used-IsSpent maker code other user_id now s spent
Step-IsSpent {s} {t} maker code (mint fresh created_by now ttl_secs _ made) spent =
    create_once-IsSpent maker code fresh created_by now ttl_secs s t made spent
Step-IsSpent {s} maker code (forget user_id spared) spent =
    forget_user-IsSpent maker code user_id s spared spent

Reach-IsSpent :
    (maker : Option Text) {s t : Invites} (code : Text)
    → Reach maker s t
    → IsSpent maker code s
    → IsSpent maker code t
Reach-IsSpent maker code here spent = spent
Reach-IsSpent maker code (next reached step) spent =
    Step-IsSpent maker code step (Reach-IsSpent maker code reached spent)

mark_used-spends :
    (code user_id : Text) (now : ℕ) (s : Invites) (row : InviteRow)
    → get s code ≡ some row
    → IsSpent row.created_by code (mark_used code user_id now s)
unfolding mark_used
mark_used-spends code user_id now s row found =
    rw (found, mark_used)
      (
        record row { used_by = some user_id; used_at = some (stored now) },
        rw (get-insert, ==_refl code) refl,
        refl,
        refl,
      )

-- A code that was accepted is usable.
redeem_ok :
    (code code' : Text) (clock now : ℕ) (s : Invites) (limiter : RedeemLimiter)
    → (redeem code clock now s limiter).0 ≡ ok (some code')
    → (code' ≡ code) × (is_usable now (get s code) ≡ true)
unfolding redeem
redeem_ok code code' clock now s limiter h = ground (arith, h)

authorize_ok :
    (users : ℕ) (invite : Option Text) (code : Text) (clock now : ℕ) (s : Invites)
    (limiter : RedeemLimiter)
    → (authorize_signup users invite clock now s limiter).0 ≡ ok (some code)
    → is_usable now (get s code) ≡ true
unfolding authorize_signup
authorize_ok users invite code clock now s limiter h =
    let accepted : (redeem (given_code invite) clock now s (limiter_check clock limiter).1).0
        ≡ ok (some code) =
      ground (arith, h) in
    let (same, usable) = redeem_ok (given_code invite) code clock now s _ accepted in rw same usable

-- An invite code makes one account: after it was accepted and marked as used, no sequence of
-- requests makes it acceptable again, also not the deletion of the account that used it, unless the
-- account that made the code is deleted.
pub invite_once :
    (users users' : ℕ) (invite invite' : Option Text) (code user_id : Text)
    (clock clock' now now' : ℕ) (s t : Invites) (limiter limiter' : RedeemLimiter) (row : InviteRow)
    → (authorize_signup users invite clock now s limiter).0 ≡ ok (some code)
    → get s code ≡ some row
    → Reach row.created_by (mark_used code user_id now s) t
    → (authorize_signup users' invite' clock' now' t limiter').0 ≢ ok (some code)
unfolding is_usable
invite_once users users' invite invite' code user_id clock clock' now now' s t limiter limiter' row
      first is_row reached again =
    let (last, found, made, spent) =
      Reach-IsSpent row.created_by code reached (mark_used-spends code user_id now s row is_row) in
    let usable = authorize_ok users' invite' code clock' now' t limiter' again in
    ground (arith, usable, found, spent)

-- The limiter after failures at some times.
abbrev pub failures : List ℕ → RedeemLimiter → RedeemLimiter
failures [] limiter = limiter
failures (t ∷ ts) limiter = failures ts (record_failure t limiter)

failures-count :
    (start count : ℕ) (ts : List ℕ)
    → All (λ t. t ≤ start + redeem_window) ts
    → failures ts (some (start, count)) ≡ some (start, count + length ts)
unfolding record_failure
failures-count start count [] h = ap (λ n. some (start, n)) (omega arith)
failures-count start count (t ∷ ts) h =
    let in_window : leb (t - start) redeem_window ≡ true = ground (arith, h.0) in
    rw in_window (failures-count start (count + 1) ts h.1 ∙ ap (λ n. some (start, n)) (omega arith))

-- No window of the limiter runs any more.
abbrev pub Lapsed : ℕ → RedeemLimiter → Type 0
Lapsed clock none = Unit
Lapsed clock (some (start, count)) = start + redeem_window < clock

window_begins :
    (clock : ℕ) (limiter : RedeemLimiter)
    → Lapsed clock limiter
    → record_failure clock limiter ≡ some (clock, 1)
unfolding record_failure
window_begins clock none h = refl
window_begins clock (some (start, count)) h = ground (arith, h)

-- The limiter counts in windows: one begins with a failure when none runs, and lasts a minute. From
-- the twentieth failure of a window to its end every attempt is refused.
pub failures_braked :
    (start clock : ℕ) (ts : List ℕ) (limiter : RedeemLimiter)
    → Lapsed start limiter
    → All (λ t. t ≤ start + redeem_window) ts
    → redeem_max_failures ≤ suc (length ts)
    → clock ≤ start + redeem_window
    → (e : ApiError) × ((limiter_check clock (failures (start ∷ ts) limiter)).0 ≡ err e)
unfolding limiter_check
failures_braked start clock ts limiter lapsed h many soon =
    let counted = failures-count start 1 ts h in
    (
      status 429 (text "too many invite attempts; try again in a minute"),
      rw (window_begins start limiter lapsed, counted) (ground (arith, many, soon)),
    )
