-- ===== src/Server/Auth/Invites.antt =====
-- server/src/auth/invites.rs: invite codes for new accounts, and the brake on guessing them. The
-- count of the accounts and a fresh code are arguments. Times of the limiter are in seconds of a
-- clock that never falls.
use obsink.Base.{
  ℕ, ◌+◌, ◌-◌, Bool, false, not, ◌&&◌, ◌||◌, Option, none, some, [], ◌∷◌, map, filter, any, all,
  is_some, ltb, leb, unwrap_or, map_option, if◌then◌else◌,
}
use obsink.Base.Ord.{◌==◌, nat_ord, text_ord}
use obsink.Base.Text.{Text, text, utf8_len, is_empty, is_ascii_digit}
use obsink.Base.BTreeMap.{Map, get, insert}
use obsink.Base.Result.{Result, ok, err}
use obsink.SyncRules.{add_u64}
use obsink.Server.Error.{ApiError, status, forbidden}
use obsink.Server.Db.{stored}

abbrev pub redeem_window : ℕ
redeem_window = 60

abbrev pub redeem_max_failures : ℕ
redeem_max_failures = 20

abbrev pub required_message : Text
required_message = text "an invite code is required to create an account"

abbrev pub invalid_message : Text
invalid_message = text "invite code is invalid, used, or expired"

abbrev pub invite_alphabet : Text
invite_alphabet = text "ABCDEFGHJKLMNPQRSTUVWXYZ23456789"

abbrev pub invite_code_len : ℕ
invite_code_len = 8

-- The start of the window and its failures.
abbrev pub RedeemLimiter : Type 0
RedeemLimiter = Option (ℕ × ℕ)

-- `RedeemLimiter::check` at a time of the clock.
unfoldable pub limiter_check : ℕ → RedeemLimiter → Result ApiError (Unit {0}) × RedeemLimiter
limiter_check clock none = (ok tt, none)
limiter_check clock (some (start, count)) =
    if ltb redeem_window (clock - start)
    then (ok tt, none)
    else if leb redeem_max_failures count
    then (
      err (status 429 (text "too many invite attempts; try again in a minute")),
      some (start, count),
    )
    else (ok tt, some (start, count))

-- `RedeemLimiter::record_failure`.
unfoldable pub record_failure : ℕ → RedeemLimiter → RedeemLimiter
record_failure clock none = some (clock, 1)
record_failure clock (some (start, count)) =
    if leb (clock - start) redeem_window then some (start, count + 1) else some (clock, 1)

-- The table `invites`.
pub record InviteRow : Type 0 where
  pub created_by : Option Text
  pub created : ℕ
  pub expires : ℕ
  pub used_by : Option Text
  pub used_at : Option ℕ

abbrev pub Invites : Type 0
Invites = Map Text InviteRow

abbrev is_ascii_alphanumeric : ℕ → Bool
is_ascii_alphanumeric c =
    is_ascii_digit c || (leb b'A' c && leb c b'Z') || (leb b'a' c && leb c b'z')

abbrev to_ascii_uppercase : ℕ → ℕ
to_ascii_uppercase c = if leb b'a' c && leb c b'z' then c - 32 else c

unfoldable pub normalize_code : Text → Text
normalize_code code = map to_ascii_uppercase (filter is_ascii_alphanumeric code)

unfoldable pub well_formed : Text → Bool
well_formed code =
    utf8_len code == invite_code_len && all (λ c. any (λ d. d == c) invite_alphabet) code

unfoldable pub is_usable : ℕ → Option InviteRow → Bool
is_usable now none = false
is_usable now (some row) =
    not (is_some row.used_by) && not (is_some row.used_at) && ltb now row.expires

abbrev pub given_code : Option Text → Text
given_code invite_code = unwrap_or (map_option normalize_code invite_code) []

-- The look-up of a code that was given, after the limiter let it pass.
unfoldable pub redeem :
    Text → ℕ → ℕ → Invites → RedeemLimiter → Result ApiError (Option Text) × RedeemLimiter
unfolding well_formed is_usable record_failure
redeem code clock now invites limiter =
    if not (well_formed code)
    then (err (forbidden invalid_message), record_failure clock limiter)
    else if not (is_usable now (get invites code))
    then (err (forbidden invalid_message), record_failure clock limiter)
    else (ok (some code), limiter)

abbrev redeem_after :
    Result ApiError (Unit {0}) × RedeemLimiter
    → Text
    → ℕ
    → ℕ
    → Invites
    → Result ApiError (Option Text) × RedeemLimiter
redeem_after (err e, limiter) code clock now invites = (err e, limiter)
redeem_after (ok _, limiter) code clock now invites = redeem code clock now invites limiter

unfoldable pub authorize_signup :
    ℕ
    → Option Text
    → ℕ
    → ℕ
    → Invites
    → RedeemLimiter
    → Result ApiError (Option Text) × RedeemLimiter
unfolding redeem limiter_check normalize_code
authorize_signup users invite_code clock now invites limiter =
    if users == 0
    then (ok none, limiter)
    else if is_empty (given_code invite_code)
    then (err (forbidden required_message), limiter)
    else redeem_after (limiter_check clock limiter) (given_code invite_code) clock now invites

unfoldable pub mark_used : Text → Text → ℕ → Invites → Invites
mark_used code user_id now invites = elim (get invites code) [
  | none ↦ invites
  | some row ↦
      insert code (record row { used_by = some user_id; used_at = some (stored now) }) invites
]

-- A new row.
abbrev pub minted : Option Text → ℕ → ℕ → InviteRow
minted created_by now ttl_secs = record {
  created_by = created_by;
  created = stored now;
  expires = stored (add_u64 now ttl_secs);
  used_by = none;
  used_at = none;
}

-- One attempt of `create` with a fresh code: it is stored unless the code is taken.
unfoldable pub create_once : Text → Option Text → ℕ → ℕ → Invites → Option Invites
create_once code created_by now ttl_secs invites = elim (get invites code) [
  | some _ ↦ none
  | none ↦ some (insert code (minted created_by now ttl_secs) invites)
]

-- A column that refers to the account.
abbrev pub refers_to : Text → Option Text → Bool
refers_to user_id none = false
refers_to user_id (some user) = user == user_id

-- What the deletion of an account does to the table: `created_by` is ON DELETE CASCADE, `used_by`
-- is ON DELETE SET NULL.
unfoldable pub forget_user : Text → Invites → Invites
forget_user user_id [] = []
forget_user user_id ((code, row) ∷ invites) =
    let rest = forget_user user_id invites in
    if refers_to user_id row.created_by
    then rest
    else (code, if refers_to user_id row.used_by then record row { used_by = none } else row) ∷ rest
