-- ===== src/Tests/Auth.antt =====
-- The theorems on sign-in, approval and invites, at concrete requests.
use obsink.Base.{
  ℕ, zero, suc, ◌<◌, ◌≡◌, ◌≢◌, refl, true, Option, none, some, List, [], ◌∷◌, arith, is_some,
}
use obsink.Base.Ord.{text_ord}
use obsink.Base.Text.{Text, text, is_ascii_digit, utf8_len}
use obsink.Base.BTreeMap.{get, insert, map_values}
use obsink.Base.Result.{Result, ok, err}
use obsink.Server.Error.{ApiError}
use obsink.Server.Blobs.{Bytes}
use obsink.Server.Auth.{
  Principal, UserRow, DeviceRow, Accounts, device_row, decode_field, approval_blob_len,
}
use obsink.Server.Auth.Keys.{SetKeysBody}
use obsink.Server.Auth.Devices.{expire_row, expire_approvals}
use obsink.Server.Auth.Approval.{
  ApproveBody, ApprovalStatus, register, register_checks, approve, poll, approved_row,
  requested_row,
}
use obsink.Server.Auth.Lifecycle.{Reach, here, next, ask, answer, expire, first_key_kept}
use obsink.Server.Auth.Answered.{IsAnswered, AllAnswered, Reach-AllAnswered, answered_once}
use obsink.Server.Auth.Relay.{poll_answer}
use obsink.Server.Auth.Email.{Codes, valid, store_code, check_code, otp_max_attempts}
use obsink.Server.Auth.Attempts.{wrong_guesses, after_guesses, five_guesses}
use obsink.Server.Auth.Invites.{
  InviteRow, RedeemLimiter, Invites, limiter_check, authorize_signup, mark_used, forget_user,
}
use obsink.Server.Auth.Once
use obsink.Server.Auth.Once.{invite_once, failures, failures_braked}

-- Base64 that shows the bytes.
abbrev plain_decode : Text → Option Bytes
plain_decode t = some t

abbrev plain_encode : Bytes → Text
plain_encode b = b

abbrev zeros : ℕ → Text
zeros zero = []
zeros (suc n) = 0 ∷ zeros n

abbrev account : UserRow
account = record {
  account_key_enc = some (zeros 60);
  account_key_salt = some (zeros 16);
  account_key_id = some (text "key");
  account_key_verifier = some (zeros 32);
}

abbrev new_device : DeviceRow
new_device = record {
  approval_public_key = none;
  approval_requested = none;
  approval_expires = none;
  approval_wrapped = none;
  approval_approved_by = none;
  approval_approved = none;
}

abbrev accounts : Accounts
accounts = record {
  users = (text "u", account) ∷ [];
  devices = (text "u", (text "mac", new_device) ∷ (text "phone", new_device) ∷ []) ∷ [];
}

abbrev phone : Principal
phone = record { user_id = text "u"; session_id = text "s"; device_id = text "phone" }

abbrev mac : Principal
mac = record { user_id = text "u"; session_id = text "s"; device_id = text "mac" }

abbrev body : SetKeysBody
body = record { wrapped = some (zeros 60); salt = some (zeros 16); verifier = some (zeros 32) }

abbrev asked : Accounts
asked = (register plain_decode plain_encode phone (some (zeros 32)) 50 accounts).1

abbrev grant : ApproveBody
grant = record { wrapped = some (zeros 92); verifier = some (zeros 32) }

abbrev granted : Result ApiError (Unit {0}) × Accounts
granted = approve plain_decode plain_encode mac (text "phone") grant 60 asked

asked_ok :
    (register plain_decode plain_encode phone (some (zeros 32)) 50 accounts).0
    ≡ ok (record { requested = 50; expires = 650 })
unfolding register decode_field get text_ord device_row
asked_ok = refl

granted_ok : granted.0 ≡ ok tt
unfolding approve text_ord decode_field get register device_row insert
granted_ok = refl

abbrev swept : Accounts
swept = expire_approvals 100 granted.1

steps : (spared : Option Text) → Reach plain_decode plain_encode spared accounts swept
steps spared =
    next (next (next here (ask phone (some (zeros 32)) 50)) (answer mac (text "phone") grant 60))
      (expire 100)

first_key_kept_example :
    (row : UserRow) × (get swept.users (text "u") ≡ some row)
    × (is_some row.account_key_enc ≡ true)
    × (row.account_key_verifier ≡ some (zeros 32))
    × (row.account_key_id ≡ some (text "key"))
unfolding get text_ord expire_approvals
first_key_kept_example =
    first_key_kept plain_decode plain_encode (text "u") account (steps (some (text "u"))) refl refl

none_answered : AllAnswered plain_decode plain_encode accounts
unfolding device_row get text_ord
none_answered u d row found answered = absurd (ground (arith, found, answered))

Reach-AllAnswered_example :
    IsAnswered
      (text "phone")
      (approved_row (zeros 92) (text "mac") 60 (requested_row (zeros 32) 50))
unfolding register decode_field get text_ord device_row approve insert expire_approvals map_values
    expire_row
Reach-AllAnswered_example =
    Reach-AllAnswered plain_decode plain_encode (steps none) none_answered (text "u") (text "phone")
      (approved_row (zeros 92) (text "mac") 60 (requested_row (zeros 32) 50)) refl

answered_once_example :
    (e : ApiError) × (approve plain_decode plain_encode mac (text "phone") grant 70 granted.1
      ≡ (err e, granted.1))
answered_once_example =
    answered_once plain_decode plain_encode mac mac (text "phone") grant grant 60 70 asked refl
      granted_ok

poll_answer_example :
    (public_key wrapped : Bytes) × (status : ApprovalStatus) × (register_checks plain_decode
        plain_encode phone
        (some (zeros 32))
        accounts
      ≡ ok public_key)
    × (decode_field plain_decode (some (zeros 92)) (text "wrapped") approval_blob_len ≡ ok wrapped)
    × (poll plain_decode plain_encode phone 70 granted.1 ≡ ok (some status))
    × (status.public_key ≡ public_key)
    × (status.wrapped ≡ some wrapped)
    × (status.approved_by ≡ some (text "mac"))
poll_answer_example =
    poll_answer plain_decode plain_encode phone mac (some (zeros 32)) grant 50 60 70 accounts refl
      (record { requested = 50; expires = 650 }) asked_ok granted_ok (omega arith)

-- A keyed hash that shows its input.
abbrev plain_index : Text → Text → Bytes
plain_index kind value = value

abbrev address : Text
address = text "a@b.c"

abbrev started : Codes
started = store_code plain_index address (text "123456") 50 []

abbrev guesses : List (Text × ℕ)
guesses = (text "000000", 51) ∷ (text "111111", 52) ∷ []

guessed_right :
    (check_code plain_index address
      (text "123456")
      53
      (after_guesses plain_index address guesses started)).0
    ≡ valid
unfolding check_code get store_code insert text_ord
guessed_right = refl

five_guesses_example : wrong_guesses plain_index address guesses started < otp_max_attempts
five_guesses_example =
    five_guesses plain_index address (text "123456") 50 [] guesses (text "123456") 53 guessed_right

abbrev invite : InviteRow
invite = record {
  created_by = some (text "m");
  created = 1;
  expires = 100;
  used_by = none;
  used_at = none;
}

abbrev invites : Invites
invites = (text "ABCDEFGH", invite) ∷ []

accepted :
    (authorize_signup 3 (some (text "abcd-efgh")) 5 50 invites none).0 ≡ ok (some (text "ABCDEFGH"))
unfolding authorize_signup is_ascii_digit utf8_len get text_ord
accepted = refl

invite_once_example :
    (authorize_signup 4
      (some (text "ABCDEFGH"))
      6
      60
      (forget_user (text "u") (mark_used (text "ABCDEFGH") (text "u") 50 invites))
      none).0
    ≢ ok (some (text "ABCDEFGH"))
unfolding get text_ord
invite_once_example =
    invite_once 3 4 (some (text "abcd-efgh")) (some (text "ABCDEFGH")) (text "ABCDEFGH") (text "u")
      5 6 50 60 invites _ none none invite accepted refl
      (Once.next Once.here (Once.forget (text "u") (λ e. ground (arith, e))))

abbrev times : List ℕ
times =
    70 ∷ 70 ∷ 70 ∷ 70 ∷ 71 ∷ 71 ∷ 71 ∷ 72 ∷ 72 ∷ 72 ∷ 73 ∷ 74 ∷ 75 ∷ 76 ∷ 77 ∷ 78 ∷ 79 ∷ 80 ∷ 81
    ∷ []

-- A window that ended before.
abbrev earlier : RedeemLimiter
earlier = some (2, 7)

failures_braked_example :
    (e : ApiError) × ((limiter_check 110 (failures (70 ∷ times) earlier)).0 ≡ err e)
failures_braked_example =
    failures_braked 70 110 times earlier (omega arith) (omega arith) (omega arith) (omega arith)
