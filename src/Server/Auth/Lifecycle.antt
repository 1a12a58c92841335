-- ===== src/Server/Auth/Lifecycle.antt =====
-- server/src/auth: the requests on users and devices as steps, and the rows of users under them.
use obsink.Base.{
  ℕ, ◌≡◌, ◌≢◌, refl, ◌∙◌, ap, true, false, ◌&&◌, inl, inr, Option, none, some, arith, is_some,
  if◌then◌else◌, Bool-cases, Option-cases,
}
use obsink.Base.Ord.{◌==◌, ==_iff, text_ord}
use obsink.Base.Text.{Text}
use obsink.Base.BTreeMap.{get, get-insert, get-remove}
use obsink.Base.Result.{ok, Result-cases}
use obsink.Server.Blobs.{Bytes}
use obsink.Server.Auth.{Principal, UserRow, DeviceRow, Accounts, device_row, put_device}
use obsink.Server.Auth.Keys.{
  SetKeysBody, Material, decode, put_user, set, set_row, rewrap, rewrap_row, rewrapped,
  check_verifier,
}
use obsink.Server.Auth.Approval.{ApproveBody, register, cancel, approve}
use obsink.Server.Auth.Devices.{
  insert_user, upsert_device, delete_device, delete_account, expire_approvals,
}

pub device_row-put_device :
    (u d u' d' : Text) (row : DeviceRow) (accounts : Accounts)
    → device_row (put_device u d row accounts) u' d'
      ≡ (if u == u' && d == d' then some row else device_row accounts u' d')
unfolding device_row put_device
device_row-put_device u d u' d' row accounts = elim (Bool-cases (u == u')) [
  | inr other ↦ rw (get-insert, other) refl
  | inl same ↦ let e : u ≡ u' = (==_iff u u').0 same in rw (get-insert, same, get-insert, e) refl
]

module _ (decode_base64 : Text → Option Bytes) (encode_base64 : Bytes → Text)
    (spared : Option Text) where
  -- The requests, by any devices, and the passes of the retention; an account that is spared is not
  -- deleted.
  pub data Step (s : Accounts) : Accounts → Type 0 where
    set_key :
        (p : Principal) (body : SetKeysBody) (key_id : Text)
        → Step s (set decode_base64 encode_base64 p body key_id s).1
    rewrap_key :
        (p : Principal) (body : SetKeysBody)
        → Step s (rewrap decode_base64 encode_base64 p body s).1
    ask :
        (p : Principal) (key : Option Text) (now : ℕ)
        → Step s (register decode_base64 encode_base64 p key now s).1
    withdraw : (p : Principal) → Step s (cancel decode_base64 encode_base64 p s)
    answer :
        (p : Principal) (device_id : Text) (body : ApproveBody) (now : ℕ)
        → Step s (approve decode_base64 encode_base64 p device_id body now s).1
    sign_up : (user_id : Text) → Step s (insert_user user_id s).1
    sign_in : (user_id device_id : Text) → Step s (upsert_device user_id device_id s).1
    revoke : (p : Principal) (device_id : Text) → Step s (delete_device p.user_id device_id s).1
    leave : (p : Principal) → spared ≢ some p.user_id → Step s (delete_account p s)
    expire : (now : ℕ) → Step s (expire_approvals now s)

  pub data Reach (s : Accounts) : Accounts → Type 0 where
    here : Reach s s
    next : {t u : Accounts} → Reach s t → Step t u → Reach s u

module _ (decode_base64 : Text → Option Bytes) (encode_base64 : Bytes → Text) where
  -- What becomes of a row that has a key.
  abbrev Kept : UserRow → Option UserRow → Type 0
  Kept row found =
      (row' : UserRow) × (found ≡ some row')
      × (is_some row'.account_key_enc ≡ true)
      × (row'.account_key_verifier ≡ row.account_key_verifier)
      × (row'.account_key_id ≡ row.account_key_id)

  set_row-Kept :
      (user_id : Text) (material : Material) (key_id : Text) (s : Accounts) (u : Text)
      (row : UserRow)
      → get s.users u ≡ some row
      → is_some row.account_key_enc ≡ true
      → (own : Option UserRow) → get s.users user_id ≡ own
      → Kept row (get (set_row decode_base64 encode_base64 s user_id material key_id own).1.users u)
  unfolding set_row put_user
  set_row-Kept user_id material key_id s u row found has none is_own = (row, found, has, refl, refl)
  set_row-Kept user_id material key_id s u row found has (some own) is_own =
      elim (Bool-cases (is_some own.account_key_enc)) [
        | inl full ↦ rw full (row, found, has, refl, refl)
        | inr empty ↦
            let other : (user_id == u) ≡ false =
              ground (arith, ==_iff user_id u, found, has, is_own, empty) in
            rw empty (row, rw (get-insert, other) found, has, refl, refl)
      ]

  set-Kept :
      (p : Principal) (body : SetKeysBody) (key_id : Text) (s : Accounts) (u : Text) (row : UserRow)
      → get s.users u ≡ some row
      → is_some row.account_key_enc ≡ true
      → Kept row (get (set decode_base64 encode_base64 p body key_id s).1.users u)
  unfolding set set_row put_user
  set-Kept p body key_id s u row found has =
      elim (Result-cases (decode decode_base64 encode_base64 body)) [
        | inr (e, refused) ↦ (row, rw (refused, set) found, has, refl, refl)
        | inl (material, read) ↦
            rw (read, set)
              (set_row-Kept p.user_id material key_id s u row found has (get s.users p.user_id)
                refl)
      ]

  -- A successful rewrap was given the verifier of the account.
  rewrap_row-ok :
      (p : Principal) (body : SetKeysBody) (s : Accounts) (new : UserRow)
      → rewrap_row decode_base64 encode_base64 p body s ≡ ok new
      → (material : Material) × (own : UserRow) × (decode decode_base64 encode_base64 body
          ≡ ok material)
        × (get s.users p.user_id ≡ some own)
        × (own.account_key_verifier ≡ some material.verifier)
        × (new ≡ rewrapped decode_base64 encode_base64 material own)
  unfolding rewrap_row check_verifier
  rewrap_row-ok p body s new h = elim (Result-cases (decode decode_base64 encode_base64 body)) [
    | inr (e, refused) ↦ absurd (ground (arith, refused, h))
    | inl (material, read) ↦ elim (Option-cases (get s.users p.user_id)) [
      | inl absent ↦ absurd (ground (arith, read, absent, h))
      | inr (own, found) ↦ elim (Option-cases own.account_key_verifier) [
        | inl unset ↦ absurd (ground (arith, read, found, unset, h))
        | inr (v, is_set) ↦ elim (Bool-cases (v == material.verifier)) [
          | inr other ↦ absurd (ground (arith, read, found, is_set, other, h))
          | inl same ↦ (
            material,
            own,
            read,
            found,
            is_set ∙ ap some ((==_iff v material.verifier).0 same),
            ground (arith, read, found, is_set, same, h),
          )
        ]
      ]
    ]
  ]

  rewrap-Kept :
      (p : Principal) (body : SetKeysBody) (s : Accounts) (u : Text) (row : UserRow)
      → get s.users u ≡ some row
      → is_some row.account_key_enc ≡ true
      → Kept row (get (rewrap decode_base64 encode_base64 p body s).1.users u)
  unfolding rewrap rewrap_row check_verifier put_user
  rewrap-Kept p body s u row found has =
      elim (Result-cases (rewrap_row decode_base64 encode_base64 p body s)) [
        | inr (e, refused) ↦ (row, rw (refused, rewrap) found, has, refl, refl)
        | inl (new, passed) ↦
            rw (passed, rewrap)
              (elim (Bool-cases (p.user_id == u)) [
                | inr other ↦ (row, rw (get-insert, other) found, has, refl, refl)
                | inl same ↦
                    let (material, own, read, is_own, matches, is_new) =
                      rewrap_row-ok p body s new passed in
                    let e : own ≡ row = ground (arith, ==_iff p.user_id u, same, is_own, found) in
                    (
                      new,
                      rw (get-insert, same) refl,
                      rw is_new refl,
                      rw (is_new, e) refl,
                      rw (is_new, e) refl,
                    )
              ])
      ]

  register-users :
      (p : Principal) (key : Option Text) (now : ℕ) (s : Accounts)
      → (register decode_base64 encode_base64 p key now s).1.users ≡ s.users
  unfolding register put_device
  register-users p key now s = ground arith

  cancel-users :
      (p : Principal) (s : Accounts) → (cancel decode_base64 encode_base64 p s).users ≡ s.users
  unfolding cancel put_device
  cancel-users p s = ground arith

  approve-users :
      (p : Principal) (device_id : Text) (body : ApproveBody) (now : ℕ) (s : Accounts)
      → (approve decode_base64 encode_base64 p device_id body now s).1.users ≡ s.users
  unfolding approve put_device
  approve-users p device_id body now s = ground arith

  insert_user-kept :
      (user_id u : Text) (row : UserRow) (s : Accounts)
      → get s.users u ≡ some row
      → get (insert_user user_id s).1.users u ≡ some row
  unfolding insert_user
  insert_user-kept user_id u row s found = elim (Option-cases (get s.users user_id)) [
    | inr (own, taken) ↦ rw (taken, insert_user) found
    | inl free ↦
        let other : (user_id == u) ≡ false = ground (arith, ==_iff user_id u, free, found) in
        rw (free, insert_user) (rw (get-insert, other) found)
  ]

  delete_account-kept :
      (p : Principal) (u : Text) (s : Accounts)
      → u ≢ p.user_id
      → get (delete_account p s).users u ≡ get s.users u
  unfolding delete_account
  delete_account-kept p u s spared =
      ground (arith, get-remove p.user_id u s.users, ==_iff p.user_id u, spared)

  upsert_device-users :
      (user_id device_id : Text) (s : Accounts)
      → (upsert_device user_id device_id s).1.users ≡ s.users
  unfolding upsert_device put_device
  upsert_device-users user_id device_id s = ground arith

  delete_device-users :
      (user_id device_id : Text) (s : Accounts)
      → (delete_device user_id device_id s).1.users ≡ s.users
  unfolding delete_device
  delete_device-users user_id device_id s = ground arith

  Step-Kept :
      {s t : Accounts} (u : Text) (row : UserRow)
      → Step decode_base64 encode_base64 (some u) s t
      → get s.users u ≡ some row
      → is_some row.account_key_enc ≡ true
      → Kept row (get t.users u)
  unfolding expire_approvals
  Step-Kept {s} u row (set_key p body key_id) found has = set-Kept p body key_id s u row found has
  Step-Kept {s} u row (rewrap_key p body) found has = rewrap-Kept p body s u row found has
  Step-Kept {s} u row (ask p key now) found has =
      (row, rw (register-users p key now s) found, has, refl, refl)
  Step-Kept {s} u row (withdraw p) found has = (row, rw (cancel-users p s) found, has, refl, refl)
  Step-Kept {s} u row (answer p device_id body now) found has =
      (row, rw (approve-users p device_id body now s) found, has, refl, refl)
  Step-Kept {s} u row (sign_up user_id) found has =
      (row, insert_user-kept user_id u row s found, has, refl, refl)
  Step-Kept {s} u row (sign_in user_id device_id) found has =
      (row, rw (upsert_device-users user_id device_id s) found, has, refl, refl)
  Step-Kept {s} u row (revoke p device_id) found has =
      (row, rw (delete_device-users p.user_id device_id s) found, has, refl, refl)
  Step-Kept {s} u row (leave p spared) found has =
      (row, delete_account-kept p u s (λ e. spared (ap some e)) ∙ found, has, refl, refl)
  Step-Kept u row (expire now) found has = (row, found, has, refl, refl)

  -- The first device to set the account key wins: once an account has a key, no sequence of
  -- requests by any devices and of retention passes removes it or changes its id or its verifier,
  -- unless the account is deleted.
  pub first_key_kept :
      (u : Text) {s t : Accounts} (row : UserRow)
      → Reach decode_base64 encode_base64 (some u) s t
      → get s.users u ≡ some row
      → is_some row.account_key_enc ≡ true
      → (row' : UserRow) × (get t.users u ≡ some row')
        × (is_some row'.account_key_enc ≡ true)
        × (row'.account_key_verifier ≡ row.account_key_verifier)
        × (row'.account_key_id ≡ row.account_key_id)
  first_key_kept u row here found has = (row, found, has, refl, refl)
  first_key_kept u row (next reached step) found has =
      let (mid, found_mid, has_mid, same_verifier, same_id) =
        first_key_kept u row reached found has in
      let (last, found_last, has_last, verifier, id) = Step-Kept u mid step found_mid has_mid in
      (last, found_last, has_last, verifier ∙ same_verifier, id ∙ same_id)
