-- ===== src/Server/Auth/Answered.antt =====
-- server/src/auth/approval.rs: the rows of the requests for approval under the steps of Lifecycle.
use obsink.Base.{
  ℕ, ◌+◌, ◌≡◌, ◌≢◌, refl, sym, ◌∙◌, ap, true, ◌&&◌, inl, inr, Option, none, some, arith, is_some,
  Bool-cases, Option-cases, [], ◌⊎◌, map_option, unwrap_or,
}
use obsink.Base.Ord.{◌==◌, ==_iff, ==_refl, text_ord}
use obsink.Base.Text.{Text, text}
use obsink.Base.BTreeMap.{get, get-insert, get-remove, map_values, get-map_values}
use obsink.Base.Result.{ok, err, Result-cases}
use obsink.Server.Error.{ApiError}
use obsink.Server.Blobs.{Bytes}
use obsink.Server.Db.{stored}
use obsink.Server.Auth.{
  Principal, DeviceRow, Accounts, device_row, put_device, decode_field, approval_blob_len,
}
use obsink.Server.Auth.Keys.{SetKeysBody, put_user, set, set_row, rewrap}
use obsink.Server.Auth.Approval.{
  ApproveBody, Registered, register, register_checks, cancel, approve, approve_row, pending_row,
  approval_ttl_secs, requested_row, withdrawn_row, approved_row, is_pending,
}
use obsink.Server.Auth.Devices.{
  insert_user, upsert_device, delete_device, delete_account, expire_row, expire_approvals,
}
use obsink.Server.Auth.Lifecycle.{
  set_key, rewrap_key, ask, withdraw, answer, sign_up, sign_in, revoke, leave, expire, Reach, here,
  next, device_row-put_device,
}

-- A row that is answered was asked for, by a device that is not its own.
abbrev pub IsAnswered : Text → DeviceRow → Type 0
IsAnswered device_id row =
    (is_some row.approval_wrapped ≡ true)
    → (approver : Text) × (t : ℕ) × (is_some row.approval_public_key ≡ true)
      × (row.approval_approved_by ≡ some approver)
      × (approver ≢ device_id)
      × (row.approval_approved ≡ some t)
      × (row.approval_expires ≡ some (t + approval_ttl_secs))

pending_row-ok :
    (s : Accounts) (user_id device_id : Text) (now : ℕ) (row : DeviceRow)
    → pending_row s user_id device_id now ≡ ok row
    → (device_row s user_id device_id ≡ some row)
      × (is_pending now row ≡ true)
      × (row.approval_wrapped ≡ none)
unfolding pending_row
pending_row-ok s user_id device_id now row h =
    elim (Option-cases (device_row s user_id device_id)) [
      | inl absent ↦ absurd (ground (arith, absent, h))
      | inr (own, found) ↦
          let e : own ≡ row = ground (arith, found, h) in
          (found ∙ ap some e, ground (arith, found, h), ground (arith, found, h))
    ]

module _ (decode_base64 : Text → Option Bytes) (encode_base64 : Bytes → Text) where
  -- What an accepted approval has passed.
  pub approve_row-ok :
      (p : Principal) (device_id : Text) (body : ApproveBody) (now : ℕ) (s : Accounts)
      (new : DeviceRow)
      → approve_row decode_base64 encode_base64 p device_id body now s ≡ ok new
      → (wrapped : Bytes) × (row : DeviceRow) × (p.device_id ≢ device_id)
        × (decode_field decode_base64 body.wrapped (text "wrapped") approval_blob_len ≡ ok wrapped)
        × (device_row s p.user_id device_id ≡ some row)
        × (is_pending now row ≡ true)
        × (row.approval_wrapped ≡ none)
        × (new ≡ approved_row wrapped p.device_id now row)
  unfolding approve_row pending_row
  approve_row-ok p device_id body now s new h =
      elim (Result-cases
        (decode_field decode_base64 body.wrapped (text "wrapped") approval_blob_len)) [
          | inr (e, refused) ↦ absurd (ground (arith, refused, h))
          | inl (wrapped, read) ↦ elim (Result-cases (pending_row s p.user_id device_id now)) [
            | inr (e, refused) ↦ absurd (ground (arith, read, refused, h))
            | inl (row, pending) ↦
                let (found, live, unanswered) =
                  pending_row-ok s p.user_id device_id now row pending in
                (
                  wrapped,
                  row,
                  (λ same. ground (arith, h, ==_iff device_id p.device_id, same)),
                  read,
                  found,
                  live,
                  unanswered,
                  ground (arith, read, pending, h),
                )
          ]
        ]

  -- After a step the rows are as `approve` and the others leave them.
  abbrev pub AllAnswered : Accounts → Type 0
  AllAnswered s = (u d : Text) (row : DeviceRow) → device_row s u d ≡ some row → IsAnswered d row

  put-AllAnswered :
      (u d : Text) (row : DeviceRow) (s : Accounts)
      → IsAnswered d row
      → AllAnswered s
      → AllAnswered (put_device u d row s)
  put-AllAnswered u d row s new old u' d' row' found = elim (Bool-cases (u == u' && d == d')) [
    | inr other ↦ old u' d' row' (rw other at (sym (device_row-put_device u d u' d' row s) ∙ found))
    | inl same ↦
        let e : row ≡ row' = ground (arith, device_row-put_device u d u' d' row s, same, found) in
        let e' : d ≡ d' = ground (arith, same, ==_iff d d') in rw (← e', ← e) new
  ]

  same_devices : (s t : Accounts) → t.devices ≡ s.devices → AllAnswered s → AllAnswered t
  unfolding device_row
  same_devices s t e old u d row found = old u d row (rw e at found)

  set-devices :
      (p : Principal) (body : SetKeysBody) (key_id : Text) (s : Accounts)
      → (set decode_base64 encode_base64 p body key_id s).1.devices ≡ s.devices
  unfolding set set_row put_user
  set-devices p body key_id s = ground arith

  rewrap-devices :
      (p : Principal) (body : SetKeysBody) (s : Accounts)
      → (rewrap decode_base64 encode_base64 p body s).1.devices ≡ s.devices
  unfolding rewrap put_user
  rewrap-devices p body s = ground arith

  register-AllAnswered :
      (p : Principal) (key : Option Text) (now : ℕ) (s : Accounts)
      → AllAnswered s
      → AllAnswered (register decode_base64 encode_base64 p key now s).1
  unfolding register
  register-AllAnswered p key now s old =
      elim (Result-cases (register_checks decode_base64 encode_base64 p key s)) [
        | inr (e, refused) ↦ rw (refused, register) old
        | inl (public_key, passed) ↦
            rw (passed, register)
              (put-AllAnswered p.user_id p.device_id (requested_row public_key now) s (λ no. cc no)
                old)
      ]

  cancel-AllAnswered :
      (p : Principal) (s : Accounts)
      → AllAnswered s
      → AllAnswered (cancel decode_base64 encode_base64 p s)
  unfolding cancel
  cancel-AllAnswered p s old = elim (Option-cases (device_row s p.user_id p.device_id)) [
    | inl absent ↦ rw (absent, cancel) old
    | inr (row, found) ↦
        rw (found, cancel) (put-AllAnswered p.user_id p.device_id withdrawn_row s (λ no. cc no) old)
  ]

  approve-AllAnswered :
      (p : Principal) (device_id : Text) (body : ApproveBody) (now : ℕ) (s : Accounts)
      → AllAnswered s
      → AllAnswered (approve decode_base64 encode_base64 p device_id body now s).1
  unfolding approve is_pending
  approve-AllAnswered p device_id body now s old =
      elim (Result-cases (approve_row decode_base64 encode_base64 p device_id body now s)) [
        | inr (e, refused) ↦ rw (refused, approve) old
        | inl (new, passed) ↦
            let (wrapped, row, other, read, found, live, unanswered, is_new) =
              approve_row-ok p device_id body now s new passed in
            rw (passed, approve)
              (put-AllAnswered p.user_id device_id new s
                (λ _. (
                  p.device_id,
                  stored now,
                  rw is_new (ground (arith, live)),
                  rw is_new refl,
                  other,
                  rw is_new refl,
                  rw is_new refl,
                ))
                old)
      ]

  insert_user-devices :
      (user_id : Text) (s : Accounts) → (insert_user user_id s).1.devices ≡ s.devices
  unfolding insert_user
  insert_user-devices user_id s = ground arith

  upsert_device-AllAnswered :
      (user_id device_id : Text) (s : Accounts)
      → AllAnswered s
      → AllAnswered (upsert_device user_id device_id s).1
  unfolding upsert_device
  upsert_device-AllAnswered user_id device_id s old = elim (Option-cases (get s.users user_id)) [
    | inl absent ↦ rw (absent, upsert_device) old
    | inr (row, found) ↦
        rw (found, upsert_device)
          (put-AllAnswered user_id device_id withdrawn_row s (λ no. cc no) old)
  ]

  -- A change that keeps rows or takes them away.
  fewer_rows :
      (s t : Accounts)
      → ((u d : Text) (row : DeviceRow)
          → device_row t u d ≡ some row
          → (row ≡ withdrawn_row) ⊎ (device_row s u d ≡ some row))
      → AllAnswered s
      → AllAnswered t
  fewer_rows s t kept old u d row found = elim (kept u d row found) [
    | inl gone ↦ λ answered. absurd (cc (gone, answered))
    | inr same ↦ old u d row same
  ]

  delete_device-AllAnswered :
      (user_id device_id : Text) (s : Accounts)
      → AllAnswered s
      → AllAnswered (delete_device user_id device_id s).1
  unfolding delete_device device_row
  delete_device-AllAnswered user_id device_id s =
      fewer_rows s (delete_device user_id device_id s).1 (λ u d row found.
        elim (Option-cases (device_row s user_id device_id)) [
          | inl absent ↦ inr (rw (absent, delete_device) at found)
          | inr (own, is_own) ↦ inr (
              let found' = (rw (is_own, delete_device, get-insert) at found) in
              elim (Bool-cases (user_id == u)) [
                | inr other ↦ (rw other at found')
                | inl same ↦
                    let e : user_id ≡ u = (==_iff user_id u).0 same in
                    let kept = get-remove device_id d (unwrap_or (get s.devices user_id) []) in
                    rw (← e) (ground (arith, kept, (rw same at found')))
              ])
        ])

  delete_account-AllAnswered :
      (p : Principal) (s : Accounts) → AllAnswered s → AllAnswered (delete_account p s)
  unfolding delete_account device_row get
  delete_account-AllAnswered p s =
      fewer_rows s (delete_account p s)
        (λ u d row found. inr (ground (arith, get-remove p.user_id u s.devices, found)))

  device_row-expire :
      (now : ℕ) (s : Accounts) (u d : Text)
      → device_row (expire_approvals now s) u d ≡ map_option (expire_row now) (device_row s u d)
  unfolding device_row expire_approvals get
  device_row-expire now s u d =
      rw (get-map_values (map_values (expire_row now)) s.devices u)
        (elim (Option-cases (get s.devices u)) [
          | inl absent ↦ rw absent refl
          | inr (rows, found) ↦ rw found (get-map_values (expire_row now) rows d)
        ])

  expire-AllAnswered :
      (now : ℕ) (s : Accounts) → AllAnswered s → AllAnswered (expire_approvals now s)
  unfolding expire_row
  expire-AllAnswered now s =
      fewer_rows s (expire_approvals now s)
        (λ u d row found. ground (arith, device_row-expire now s u d, found))

  -- Whatever is asked of the server, by any devices, also sign-ins and the removal of devices and
  -- accounts, and whatever the retention ends: an answered request has a public key, names an
  -- approver, which is another device, and expires ten minutes after the approval, provided that it
  -- is so at the start.
  pub Reach-AllAnswered :
      {s t : Accounts} → Reach decode_base64 encode_base64 none s t → AllAnswered s → AllAnswered t
  Reach-AllAnswered here old = old
  Reach-AllAnswered (next {t = mid} reached (set_key p body key_id)) old =
      same_devices mid _ (set-devices p body key_id mid) (Reach-AllAnswered reached old)
  Reach-AllAnswered (next {t = mid} reached (rewrap_key p body)) old =
      same_devices mid _ (rewrap-devices p body mid) (Reach-AllAnswered reached old)
  Reach-AllAnswered (next {t = mid} reached (ask p key now)) old =
      register-AllAnswered p key now mid (Reach-AllAnswered reached old)
  Reach-AllAnswered (next {t = mid} reached (withdraw p)) old =
      cancel-AllAnswered p mid (Reach-AllAnswered reached old)
  Reach-AllAnswered (next {t = mid} reached (answer p device_id body now)) old =
      approve-AllAnswered p device_id body now mid (Reach-AllAnswered reached old)
  Reach-AllAnswered (next {t = mid} reached (sign_up user_id)) old =
      same_devices mid _ (insert_user-devices user_id mid) (Reach-AllAnswered reached old)
  Reach-AllAnswered (next {t = mid} reached (sign_in user_id device_id)) old =
      upsert_device-AllAnswered user_id device_id mid (Reach-AllAnswered reached old)
  Reach-AllAnswered (next {t = mid} reached (revoke p device_id)) old =
      delete_device-AllAnswered p.user_id device_id mid (Reach-AllAnswered reached old)
  Reach-AllAnswered (next {t = mid} reached (leave p _)) old =
      delete_account-AllAnswered p mid (Reach-AllAnswered reached old)
  Reach-AllAnswered (next {t = mid} reached (expire now)) old =
      expire-AllAnswered now mid (Reach-AllAnswered reached old)

  pub approve_ok :
      (p : Principal) (device_id : Text) (body : ApproveBody) (now : ℕ) (s : Accounts)
      → (approve decode_base64 encode_base64 p device_id body now s).0 ≡ ok tt
      → (new : DeviceRow) × (approve_row decode_base64 encode_base64 p device_id body now s
          ≡ ok new)
        × ((approve decode_base64 encode_base64 p device_id body now s).1
            ≡ put_device p.user_id device_id new s)
  unfolding approve
  approve_ok p device_id body now s h =
      elim (Result-cases (approve_row decode_base64 encode_base64 p device_id body now s)) [
        | inr (e, refused) ↦ absurd (ground (arith, refused, h))
        | inl (new, passed) ↦ (new, passed, rw (passed, approve) refl)
      ]

  pub register_ok :
      (p : Principal) (key : Option Text) (now : ℕ) (s : Accounts) (r : Registered)
      → (register decode_base64 encode_base64 p key now s).0 ≡ ok r
      → (public_key : Bytes) × (register_checks decode_base64 encode_base64 p key s ≡ ok public_key)
        × ((register decode_base64 encode_base64 p key now s).1
            ≡ put_device p.user_id p.device_id (requested_row public_key now) s)
  unfolding register
  register_ok p key now s r h =
      elim (Result-cases (register_checks decode_base64 encode_base64 p key s)) [
        | inr (e, refused) ↦ absurd (ground (arith, refused, h))
        | inl (public_key, passed) ↦ (public_key, passed, rw (passed, register) refl)
      ]

  approve_err :
      (p : Principal) (device_id : Text) (body : ApproveBody) (now : ℕ) (s : Accounts)
      (e : ApiError)
      → approve_row decode_base64 encode_base64 p device_id body now s ≡ err e
      → approve decode_base64 encode_base64 p device_id body now s ≡ (err e, s)
  unfolding approve
  approve_err p device_id body now s e h = rw (h, approve) refl

  pub row_after :
      (u d : Text) (row : DeviceRow) (s : Accounts)
      → device_row (put_device u d row s) u d ≡ some row
  row_after u d row s = device_row-put_device u d u d row s ∙ rw (==_refl u, ==_refl d) refl

  -- A request that was answered is not answered again: a later approval of the same device's
  -- request fails, at any time and by any device of the account, and changes nothing.
  pub answered_once :
      (p q : Principal) (device_id : Text) (body body' : ApproveBody) (now later : ℕ) (s : Accounts)
      → q.user_id ≡ p.user_id
      → (approve decode_base64 encode_base64 p device_id body now s).0 ≡ ok tt
      → let t = (approve decode_base64 encode_base64 p device_id body now s).1 in
        (e : ApiError) × (approve decode_base64 encode_base64 q device_id body' later t
          ≡ (err e, t))
  unfolding approve
  answered_once p q device_id body body' now later s same done =
      let (new, passed, is_t) = approve_ok p device_id body now s done in
      let (wrapped, row, _, _, _, _, _, is_new) =
        approve_row-ok p device_id body now s new passed in
      let t = (approve decode_base64 encode_base64 p device_id body now s).1 in
      let found : device_row t q.user_id device_id ≡ some new =
        rw (is_t, same) (row_after p.user_id device_id new s) in
      elim (Result-cases (approve_row decode_base64 encode_base64 q device_id body' later t)) [
        | inr (e, refused) ↦ (e, approve_err q device_id body' later t e refused)
        | inl (again, passed') ↦
            let (_, row', _, _, found', _, unanswered, _) =
              approve_row-ok q device_id body' later t again passed' in
            absurd (cc (found, found', unanswered, is_new))
      ]
