-- ===== src/Server/Auth/Relay.antt =====
-- The answer to a request for approval, as the device that asked polls it.
use obsink.Base.{
  ℕ, ◌+◌, ◌<◌, ◌≡◌, refl, sym, ◌∙◌, ap, inl, inr, Option, some, arith, lt→ltb, Option-cases,
}
use obsink.Base.Ord.{text_ord}
use obsink.Base.Text.{Text, text}
use obsink.Base.BTreeMap.{get}
use obsink.Base.Result.{ok}
use obsink.Server.Blobs.{Bytes}
use obsink.Server.Db.{stored}
use obsink.Server.Auth.{
  Principal, UserRow, DeviceRow, Accounts, device_row, put_device, decode_field, approval_blob_len,
}
use obsink.Server.Auth.Keys.{check_verifier}
use obsink.Server.Auth.Approval.{
  ApproveBody, ApprovalStatus, Registered, register, register_checks, approve, approve_row,
  approval_ttl_secs, requested_row, approved_row, poll, live_status, and_key,
}
use obsink.Server.Auth.Answered.{approve_row-ok, approve_ok, register_ok, row_after}

module _ (decode_base64 : Text → Option Bytes) (encode_base64 : Bytes → Text) where
  approve_row-user :
      (p : Principal) (device_id : Text) (body : ApproveBody) (now : ℕ) (s : Accounts)
      (new : DeviceRow)
      → approve_row decode_base64 encode_base64 p device_id body now s ≡ ok new
      → (user : UserRow) × (get s.users p.user_id ≡ some user)
  unfolding approve_row check_verifier
  approve_row-user p device_id body now s new h = elim (Option-cases (get s.users p.user_id)) [
    | inl absent ↦ absurd (ground (arith, absent, h))
    | inr (user, found) ↦ (user, found)
  ]

  users-put_device :
      (u d : Text) (row : DeviceRow) (s : Accounts) → (put_device u d row s).users ≡ s.users
  unfolding put_device
  users-put_device u d row s = refl

  -- What a poll reports of an answered request.
  abbrev answered_status : Bytes → Bytes → Text → ℕ → ℕ → UserRow → ApprovalStatus
  answered_status public_key wrapped approver now later user = record {
    public_key = encode_base64 public_key;
    requested = stored now;
    expires = stored later + approval_ttl_secs;
    wrapped = some (encode_base64 wrapped);
    key_id = user.account_key_id;
    approved_by = some approver;
    approved = some (stored later);
  }

  poll_lem :
      (p : Principal) (public_key wrapped : Bytes) (approver : Text) (now later at : ℕ)
      (user : UserRow) (s : Accounts)
      → get s.users p.user_id ≡ some user
      → device_row s p.user_id p.device_id
        ≡ some (approved_row wrapped approver later (requested_row public_key now))
      → at < stored later + approval_ttl_secs
      → poll decode_base64 encode_base64 p at s
        ≡ ok (some (answered_status public_key wrapped approver now later user))
  unfolding poll live_status and_key
  poll_lem p public_key wrapped approver now later at user s found is_row early =
      rw (found, is_row, lt→ltb _ _ early) refl

  -- The device that asked gets the answer: after it registered its public key and another device
  -- approved, a poll before the end of the ten minutes gives the wrapped key, with the public key
  -- that was registered.
  pub poll_answer :
      (p q : Principal) (key : Option Text) (body : ApproveBody) (now later at : ℕ) (s : Accounts)
      → q.user_id ≡ p.user_id
      → (r : Registered) → (register decode_base64 encode_base64 p key now s).0 ≡ ok r
      → let asked = (register decode_base64 encode_base64 p key now s).1 in
        let answered = approve decode_base64 encode_base64 q p.device_id body later asked in
        answered.0 ≡ ok tt
        → at < stored later + approval_ttl_secs
        → (public_key wrapped : Bytes) × (status : ApprovalStatus) × (register_checks decode_base64
              encode_base64 p key s
            ≡ ok public_key)
          × (decode_field decode_base64 body.wrapped (text "wrapped") approval_blob_len
              ≡ ok wrapped)
          × (poll decode_base64 encode_base64 p at answered.1 ≡ ok (some status))
          × (status.public_key ≡ encode_base64 public_key)
          × (status.wrapped ≡ some (encode_base64 wrapped))
          × (status.approved_by ≡ some q.device_id)
  poll_answer p q key body now later at s same r registered answered early =
      let (public_key, checked, is_asked) =
        register_ok decode_base64 encode_base64 p key now s r registered in
      let asked = (register decode_base64 encode_base64 p key now s).1 in
      let (new, passed, is_last) =
        approve_ok decode_base64 encode_base64 q p.device_id body later asked answered in
      let (wrapped, row, _, read, found, _, _, is_new) =
        approve_row-ok decode_base64 encode_base64 q p.device_id body later asked new passed in
      let (user, found_user) = approve_row-user q p.device_id body later asked new passed in
      let is_row : row ≡ requested_row public_key now = cc (
        found,
        ap (λ (a : Accounts). device_row a q.user_id p.device_id) is_asked,
        same,
        row_after decode_base64 encode_base64 p.user_id p.device_id (requested_row public_key now)
            s,
      ) in
      let last = (approve decode_base64 encode_base64 q p.device_id body later asked).1 in
      let is_new' : new ≡ approved_row wrapped q.device_id later (requested_row public_key now) =
        is_new ∙ ap (approved_row wrapped q.device_id later) is_row in
      let found_row : device_row last p.user_id p.device_id ≡ some new =
        rw (is_last, same)
          (row_after decode_base64 encode_base64 p.user_id p.device_id new asked) in
      let found_last : get last.users p.user_id ≡ some user =
        ap (λ (a : Accounts). get a.users p.user_id) is_last
        ∙ ap (λ m. get m p.user_id) (users-put_device q.user_id p.device_id new asked)
        ∙ ap (get asked.users) (sym same)
        ∙ found_user in
      (
        public_key,
        wrapped,
        answered_status public_key wrapped q.device_id now later user,
        checked,
        read,
        poll_lem p public_key wrapped q.device_id now later at user last found_last
            (found_row ∙ ap some is_new') early,
        refl,
        refl,
        refl,
      )
