-- ===== src/Server/Auth/Email.antt =====
-- server/src/auth/email.rs: one-time codes by email. The keyed hash of look-ups (an HMAC of a crate)
-- is the parameter `index`; a fresh code, the outcome of a mail, and the answers of the device check
-- and of the sign-in that `verify` runs are arguments.
use obsink.Base.{
  ℕ, ◌+◌, ◌-◌, Bool, false, not, ◌&&◌, ◌||◌, Option, none, some, List, [], ◌∷◌, ◌++◌, map, filter,
  any, all, ltb, leb, unwrap_or, map_option, if◌then◌else◌,
}
use obsink.Base.Ord.{◌==◌, nat_ord, text_ord}
use obsink.Base.Text.{split, Text, text, utf8_len, is_empty, is_ascii_digit, is_whitespace, trim}
use obsink.Base.BTreeMap.{Map, get, insert}
use obsink.Base.Result.{Result, ok, err, ensure, ◌>>=◌, ◌>>◌}
use obsink.SyncRules.{add_u64}
use obsink.Server.Error.{ApiError, status, bad_request, unauthorized}
use obsink.Server.Blobs.{Bytes}
use obsink.Server.Db.{stored}

abbrev pub otp_ttl_secs : ℕ
otp_ttl_secs = 600

abbrev pub otp_resend_cooldown_secs : ℕ
otp_resend_cooldown_secs = 60

abbrev pub otp_max_attempts : ℕ
otp_max_attempts = 5

abbrev max_email_len : ℕ
max_email_len = 254

-- The table `email_codes`.
pub record CodeRow : Type 0 where
  pub code_hmac : Option Bytes
  pub expires : ℕ
  pub attempts : ℕ
  pub last_sent : ℕ

abbrev pub Codes : Type 0
Codes = Map Bytes CodeRow

-- `char::to_ascii_lowercase`.
abbrev to_ascii_lowercase : ℕ → ℕ
to_ascii_lowercase c = if leb b'A' c && leb c b'Z' then c + 32 else c

abbrev first_is : ℕ → Text → Bool
first_is c [] = false
first_is c (d ∷ _) = d == c

abbrev last_is : ℕ → Text → Bool
last_is c [] = false
last_is c (d ∷ []) = d == c
last_is c (_ ∷ e ∷ ds) = last_is c (e ∷ ds)

unfoldable pub valid_parts : List Text → Bool
valid_parts (local ∷ domain ∷ []) =
    not (is_empty local)
    && not (any is_whitespace local)
    && any (λ c. c == b'.') domain
    && not (first_is b'.' domain)
    && not (last_is b'.' domain)
    && not (any is_whitespace domain)
valid_parts _ = false

unfoldable pub normalize_email : Option Text → Result ApiError Text
unfolding valid_parts split
normalize_email value =
    let email = unwrap_or (map_option (λ v. map to_ascii_lowercase (trim v)) value) [] in
    if leb (utf8_len email) max_email_len && valid_parts (split b'@' email)
    then ok email
    else err (bad_request (text "a valid email address is required"))

-- Exactly six digits, whitespace aside.
unfoldable pub parse_code : Option Text → Result ApiError Text
parse_code raw =
    let code = filter (λ c. not (is_whitespace c)) (unwrap_or raw []) in
    if utf8_len code == 6 && all is_ascii_digit code
    then ok code
    else err (bad_request (text "code must be 6 digits"))

pub data CodeCheck : Type 0 where
  valid : CodeCheck
  rejected : ApiError → CodeCheck

abbrev pub expired_code : ApiError
expired_code = unauthorized (text "code expired; request a new one")

abbrev pub too_many_attempts : ApiError
too_many_attempts = unauthorized (text "too many attempts; request a new code")

abbrev pub incorrect_code : ApiError
incorrect_code = unauthorized (text "incorrect code")

-- The check of the row, and the row that it writes.
unfoldable pub check_row : Bytes → ℕ → Option CodeRow → CodeCheck × Option CodeRow
check_row expected now none = (rejected expired_code, none)
check_row expected now (some row) = elim (if ltb now row.expires then row.code_hmac else none) [
  | none ↦ (rejected expired_code, none)
  | some code_hmac ↦
      if leb otp_max_attempts row.attempts
      then (rejected too_many_attempts, some (record row { code_hmac = none }))
      else if not (expected == code_hmac)
      then (rejected incorrect_code, some (record row { attempts = row.attempts + 1 }))
      else (valid, none)
]

abbrev pub write_row : Bytes → Option CodeRow → Codes → Codes
write_row key none codes = codes
write_row key (some row) codes = insert key row codes

module _ (index : Text → Text → Bytes) where
  abbrev pub email_key : Text → Bytes
  email_key email = index (text "email") email

  abbrev pub otp_hash : Text → Text → Bytes
  otp_hash email code = index (text "otp") (email ++ text ":" ++ code)

  unfoldable pub store_code : Text → Text → ℕ → Codes → Codes
  store_code email code now codes =
      insert (email_key email)
        (record {
          code_hmac = some (otp_hash email code);
          expires = stored (add_u64 now otp_ttl_secs);
          attempts = 0;
          last_sent = stored now;
        })
        codes

  unfoldable pub check_code : Text → Text → ℕ → Codes → CodeCheck × Codes
  unfolding check_row
  check_code email code now codes =
      let (check, row) = check_row (otp_hash email code) now (get codes (email_key email)) in
      (check, write_row (email_key email) row codes)

  unfoldable pub consume_code : Text → Codes → Codes
  consume_code email codes = elim (get codes (email_key email)) [
    | none ↦ codes
    | some row ↦ insert (email_key email) (record row { code_hmac = none }) codes
  ]

  -- What `start` answers.
  pub record StartResponse : Type 0 where
    pub sent : Bool
    pub code : Option Text

  unfoldable pub cooling : ℕ → Option CodeRow → Bool
  cooling now none = false
  cooling now (some row) = ltb (now - row.last_sent) otp_resend_cooldown_secs

  -- The checks of `start`, then the mail if one is configured.
  unfoldable pub start_checks : Bool → Bool → Bool → Option Text → ℕ → Codes → Result ApiError Text
  unfolding cooling normalize_email
  start_checks smtp_configured dev_return_code mail_sent email now codes = do
    address ← normalize_email email
    ensure (smtp_configured || dev_return_code)
        (status 503 (text "this server does not send email; ask the operator for a sign-in code"))
    ensure (not (cooling now (get codes (email_key address))))
        (status 429 (text "a code was sent recently; wait a minute and try again"))
    ensure (not smtp_configured || mail_sent) (status 502 (text "could not send sign-in email"))
    ok address

  unfoldable pub start :
      Bool → Bool → Bool → Option Text → Text → ℕ → Codes → Result ApiError StartResponse × Codes
  unfolding start_checks store_code
  start smtp_configured dev_return_code mail_sent email code now codes =
      elim (start_checks smtp_configured dev_return_code mail_sent email now codes) [
        | err e ↦ (err e, codes)
        | ok address ↦ (
          ok (record {
            sent = smtp_configured;
            code = if dev_return_code then some code else none;
          }),
          store_code address code now codes,
        )
      ]

  unfoldable pub mint_code : Text → Text → ℕ → Codes → Result ApiError Text × Codes
  unfolding store_code
  mint_code email code now codes = elim (normalize_email (some email)) [
    | err e ↦ (err e, codes)
    | ok address ↦ (ok code, store_code address code now codes)
  ]

  -- The transaction of `verify`: a rejection keeps its row, a refused sign-in rolls back.
  unfoldable pub finish_verify :
      {Session : Type 0}
      → Text
      → Result ApiError Session
      → CodeCheck × Codes
      → Codes
      → Result ApiError Session × Codes
  unfolding consume_code
  finish_verify email sign_in (rejected e, checked) codes = (err e, checked)
  finish_verify email (err e) (valid, checked) codes = (err e, codes)
  finish_verify email (ok session) (valid, checked) codes = (ok session, consume_code email checked)

  -- What `verify` checks before the transaction.
  unfoldable pub verify_checks :
      {Device : Type 0}
      → Option Text
      → Option Text
      → Result ApiError Device
      → Result ApiError (Text × Text × Device)
  unfolding normalize_email parse_code
  verify_checks email code device = do
    address ← normalize_email email
    digits ← parse_code code
    identity ← device
    ok (address, digits, identity)

  unfoldable pub verify :
      {Session Device : Type 0}
      → Option Text
      → Option Text
      → Result ApiError Device
      → (Device → Text → Result ApiError Session)
      → ℕ
      → Codes
      → Result ApiError Session × Codes
  unfolding finish_verify check_code verify_checks
  verify email code device sign_in now codes = elim (verify_checks email code device) [
    | err e ↦ (err e, codes)
    | ok (address, digits, identity) ↦
        finish_verify address (sign_in identity address) (check_code address digits now codes) codes
  ]
