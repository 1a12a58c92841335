-- ===== src/Server/Auth/Attempts.antt =====
-- How often a code can be guessed, and that it is used once.
use obsink.Base.{
  ℕ, ◌+◌, ◌<◌, ◌≡◌, ◌≢◌, refl, sym, ◌∙◌, subst, ◌⊎◌, inl, inr, Option, none, some, List, [], ◌∷◌,
  ltb, leb, if◌then◌else◌, arith, Option-cases, Bool-cases,
}
use obsink.Base.Ord.{◌==◌, ==_refl, nat_ord, text_ord}
use obsink.Base.Text.{Text, text}
use obsink.Base.BTreeMap.{get, get-insert}
use obsink.SyncRules.{add_u64}
use obsink.Server.Error.{status, unauthorized}
use obsink.Server.Blobs.{Bytes}
use obsink.Server.Db.{stored}
use obsink.Server.Auth.Email.{
  CodeRow, Codes, CodeCheck, valid, rejected, check_row, email_key, otp_hash, store_code,
  check_code, consume_code, otp_max_attempts, otp_ttl_secs,
}

-- The row after a check.
abbrev row_after : Option CodeRow → Option CodeRow → Option CodeRow
row_after before none = before
row_after before (some row) = some row

-- One wrong guess.
abbrev pub wrong : CodeCheck → ℕ
wrong valid = 0
wrong (rejected (status code message)) = if message == text "incorrect code" then 1 else 0
wrong (rejected _) = 0

-- After `n` wrong guesses the row counts them, or its code is void.
abbrev Counts : ℕ → Option CodeRow → Type 0
Counts n none = Unit
Counts n (some row) = (row.code_hmac ≡ none) ⊎ (row.attempts ≡ n)

check_row-Counts :
    (expected : Bytes) (now n : ℕ) (row : Option CodeRow)
    → Counts n row
    → Counts
        (wrong (check_row expected now row).0 + n)
        (row_after row (check_row expected now row).1)
unfolding check_row unauthorized text_ord
check_row-Counts expected now n none c = tt
check_row-Counts expected now n (some row) c =
    let same : 0 + n ≡ n = omega arith in
    elim (Option-cases (if ltb now row.expires then row.code_hmac else none)) [
      | inl absent ↦ rw (absent, check_row, same) c
      | inr (code_hmac, present) ↦ elim (Bool-cases (leb otp_max_attempts row.attempts)) [
        | inl over ↦ rw (present, over, check_row, same) (inl refl)
        | inr under ↦ elim (Bool-cases (expected == code_hmac)) [
          | inl right ↦ rw (present, under, right, check_row, same) c
          | inr other ↦ rw (present, under, other, check_row) (ground (arith, c, present))
        ]
      ]
    ]

check_row-valid :
    (expected : Bytes) (now n : ℕ) (row : Option CodeRow)
    → Counts n row
    → (check_row expected now row).0 ≡ valid
    → n < otp_max_attempts
unfolding check_row
check_row-valid expected now n none c h = cc h
check_row-valid expected now n (some row) c h = ground (arith, c, h)

module _ (index : Text → Text → Bytes) (email : Text) where
  abbrev key : Bytes
  key = email_key index email

  check_code-row :
      (code : Text) (now : ℕ) (codes : Codes)
      → get (check_code index email code now codes).1 key
        ≡ row_after (get codes key) (check_row (otp_hash index email code) now (get codes key)).1
  unfolding check_code
  check_code-row code now codes =
      elim (Option-cases (check_row (otp_hash index email code) now (get codes key)).1) [
        | inl unchanged ↦ rw (unchanged, check_code) refl
        | inr (row, written) ↦
            rw (written, check_code) (get-insert key key row codes ∙ rw ==_refl refl)
      ]

  check_code-check :
      (code : Text) (now : ℕ) (codes : Codes)
      → (check_code index email code now codes).0
        ≡ (check_row (otp_hash index email code) now (get codes key)).0
  unfolding check_code
  check_code-check code now codes = refl

  -- The guesses, each with its time: how many were wrong, and what they leave.
  abbrev pub wrong_guesses : List (Text × ℕ) → Codes → ℕ
  wrong_guesses [] codes = 0
  wrong_guesses ((code, now) ∷ guesses) codes =
      wrong_guesses guesses (check_code index email code now codes).1
      + wrong (check_code index email code now codes).0

  abbrev pub after_guesses : List (Text × ℕ) → Codes → Codes
  after_guesses [] codes = codes
  after_guesses ((code, now) ∷ guesses) codes =
      after_guesses guesses (check_code index email code now codes).1

  guesses-Counts :
      (guesses : List (Text × ℕ)) (n : ℕ) (codes : Codes)
      → Counts n (get codes key)
      → Counts (wrong_guesses guesses codes + n) (get (after_guesses guesses codes) key)
  guesses-Counts [] n codes c = let same : 0 + n ≡ n = omega arith in rw same c
  guesses-Counts ((code, now) ∷ guesses) n codes c =
      let w = wrong (check_code index email code now codes).0 in
      let step : Counts (w + n) (get (check_code index email code now codes).1 key) =
        subst (Counts (w + n)) (sym (check_code-row code now codes)) (
          rw (← check_code-check code now codes) at
            (check_row-Counts (otp_hash index email code) now n (get codes key) c)) in
      let rest = check_code index email code now codes in
      subst (λ m. Counts m (get (after_guesses guesses rest.1) key)) (omega arith)
        (guesses-Counts guesses (w + n) rest.1 step)

  accepted_early :
      (guesses : List (Text × ℕ)) (n : ℕ) (codes : Codes) (code : Text) (now : ℕ)
      → Counts n (get codes key)
      → (check_code index email code now (after_guesses guesses codes)).0 ≡ valid
      → wrong_guesses guesses codes + n < otp_max_attempts
  accepted_early guesses n codes code now c h =
      let last = after_guesses guesses codes in
      check_row-valid (otp_hash index email code) now _ (get last key)
        (guesses-Counts guesses n codes c) (sym (check_code-check code now last) ∙ h)

  stored-Counts :
      (secret : Text) (now : ℕ) (codes : Codes)
      → Counts 0 (get (store_code index email secret now codes) key)
  unfolding store_code
  stored-Counts secret now codes = rw (get-insert, ==_refl key) (inr refl)

  consume-Counts : (codes : Codes) → Counts 5 (get (consume_code index email codes) key)
  unfolding consume_code
  consume-Counts codes = elim (Option-cases (get codes key)) [
    | inl absent ↦ rw (absent, consume_code, absent) tt
    | inr (row, found) ↦ rw (found, consume_code, get-insert, ==_refl key) (inl refl)
  ]

  -- After a code was stored, it is accepted only while fewer than five of the guesses for the email
  -- have been wrong, whatever they are.
  pub five_guesses :
      (secret : Text) (stored_at : ℕ) (codes : Codes) (guesses : List (Text × ℕ)) (code : Text)
      (now : ℕ)
      → let started = store_code index email secret stored_at codes in
        (check_code index email code now (after_guesses guesses started)).0 ≡ valid
        → wrong_guesses guesses started < otp_max_attempts
  five_guesses secret stored_at codes guesses code now h =
      let started = store_code index email secret stored_at codes in
      let fresh : Counts 0 (get started key) = stored-Counts secret stored_at codes in
      let bound = accepted_early guesses 0 started code now fresh h in omega arith

  -- A code that was consumed is not accepted, whatever is guessed and whenever.
  pub consumed_code :
      (codes : Codes) (guesses : List (Text × ℕ)) (code : Text) (now : ℕ)
      → (check_code index email code now (after_guesses guesses (consume_code index email codes))).0
        ≢ valid
  consumed_code codes guesses code now h =
      let bound =
        accepted_early guesses 5 (consume_code index email codes) code now (consume-Counts codes)
          h in
      omega arith

  -- A stored code is accepted until it expires.
  pub check-store_code :
      (code : Text) (stored_at now : ℕ) (codes : Codes)
      → now < stored (add_u64 stored_at otp_ttl_secs)
      → (check_code index email code now (store_code index email code stored_at codes)).0 ≡ valid
  unfolding check_code store_code check_row
  check-store_code code stored_at now codes early =
      rw (get-insert, ==_refl key) (ground (arith, early, ==_refl (otp_hash index email code)))
