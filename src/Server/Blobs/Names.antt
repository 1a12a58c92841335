-- ===== src/Server/Blobs/Names.antt =====
-- History entry names: they sort by what they were made of, and the chosen one is not in use.
use obsink.Base.{
  ℕ, zero, suc, ◌^◌, ◌<◌, ◌≤◌, ◌≡◌, refl, sym, ap, ◌∙◌, true, false, none, List, [], ◌∷◌, ◌++◌,
  arith, length, is_some, inl, inr, Bool-cases,
}
use mathlib.Core.List.{append-nil}
use obsink.Base.Ord.{◌==◌, ==_ne, nat_ord, text_ord, path_ord}
use obsink.Base.Text.{Text}
use obsink.Base.Text.Decimal.{
  decimal, all_digits, all_digits-decimal, digits_value, digits_value-decimal, span_digits,
  span_digits-append, parse_u64-decimal,
}
use obsink.Base.BTreeMap.{get, remove, get-remove, length-remove_lt}
use obsink.Server.Blobs.{
  number_or_zero, Tier, Files, entry_name, after_dash, history_order, extract_timestamp,
  history_path, free_name, history_name,
}

-- The suffix of `entry_name`.
abbrev suffix : ℕ → Text
suffix zero = []
suffix (suc n) = b'-' ∷ decimal (suc n)

entry_name-eq : (now n : ℕ) → entry_name now n ≡ decimal now ++ suffix n
unfolding entry_name
entry_name-eq now zero = sym (append-nil (decimal now))
entry_name-eq now (suc n) = refl

span_digits-suffix : (n : ℕ) → span_digits (suffix n) ≡ ([], suffix n)
unfolding span_digits
span_digits-suffix zero = refl
span_digits-suffix (suc n) = refl

after_dash-digits :
    (ds rest : Text) → all_digits ds ≡ true → after_dash (ds ++ rest) ≡ after_dash rest
unfolding after_dash all_digits
after_dash-digits [] rest h = refl
after_dash-digits (d ∷ ds) rest h = ground (arith, after_dash-digits ds rest)

span_digits-entry_name : (now n : ℕ) → (span_digits (entry_name now n)).0 ≡ decimal now
span_digits-entry_name now n =
    ap (λ (s : Text). (span_digits s).0) (entry_name-eq now n)
    ∙ ap (λ (p : Text × Text). p.0)
        (span_digits-append (decimal now) (suffix n) (all_digits-decimal now)
          (span_digits-suffix n))

extract_timestamp-entry_name :
    (now n : ℕ) → now < 2 ^ 64 → extract_timestamp (entry_name now n) ≡ now
unfolding extract_timestamp
extract_timestamp-entry_name now n h =
    rw (extract_timestamp, span_digits-entry_name now n, parse_u64-decimal now h)

number-suffix : (n : ℕ) → n < 2 ^ 64 → number_or_zero (after_dash (suffix n)) ≡ n
unfolding after_dash
number-suffix zero h = refl
number-suffix (suc n) h = rw (number_or_zero, parse_u64-decimal (suc n) h)

-- A history entry sorts by the second it was written in, then by its number within that second, for
-- numbers below 2 ^ 64.
pub history_order-entry_name :
    (now n : ℕ) → now < 2 ^ 64 → n < 2 ^ 64 → history_order (entry_name now n) ≡ (now, n)
history_order-entry_name now n h k =
    let dash : number_or_zero (after_dash (entry_name now n)) ≡ n =
      ap number_or_zero (
        ap after_dash (entry_name-eq now n)
        ∙ after_dash-digits (decimal now) (suffix n) (all_digits-decimal now))
      ∙ number-suffix n k in
    let stamp = extract_timestamp-entry_name now n h in unfold history_order in cc (dash, stamp)

append_cancel : (xs ys zs : Text) → xs ++ ys ≡ xs ++ zs → ys ≡ zs
append_cancel [] ys zs h = h
append_cancel (x ∷ xs) ys zs h = append_cancel xs ys zs (cc h)

suffix-injective : (m n : ℕ) → suffix m ≡ suffix n → m ≡ n
suffix-injective zero zero h = refl
suffix-injective zero (suc n) h = cc
suffix-injective (suc m) zero h = cc
suffix-injective (suc m) (suc n) h =
    let e : decimal (suc m) ≡ decimal (suc n) = cc h in
    sym (digits_value-decimal (suc m)) ∙ ap (digits_value 0) e ∙ digits_value-decimal (suc n)

pub entry_name-injective : (now m n : ℕ) → entry_name now m ≡ entry_name now n → m ≡ n
entry_name-injective now m n h = suffix-injective m n (
    append_cancel (decimal now) (suffix m) (suffix n)
      (sym (entry_name-eq now m) ∙ h ∙ entry_name-eq now n))

module _ (path_name : Text → Text) (tier : Tier) (vault_id path : Text) (now : ℕ) where
  -- The path of the `n`-th name.
  abbrev nth : ℕ → List Text
  nth n = history_path path_name tier vault_id path (entry_name now n)

  nth-injective : (m n : ℕ) → nth m ≡ nth n → m ≡ n
  nth-injective m n h = entry_name-injective now m n (cc h)

  -- The loop, by the number of the name that it looks at.
  abbrev search_from : Files → ℕ → ℕ → Text
  search_from store fuel n =
      free_name path_name tier vault_id path now store fuel (entry_name now n) (suc n)

  -- It ends at the name of that number or of a later one, and a file that is gone from an earlier
  -- name makes no difference.
  search_from_later :
      (store : Files) (fuel n k : ℕ)
      → k < n
      → (j : ℕ) × (n ≤ j)
        × (search_from store fuel n ≡ entry_name now j)
        × (search_from (remove (nth k) store) fuel n ≡ entry_name now j)
  unfolding free_name
  search_from_later store zero n k h = (n, omega arith, refl, refl)
  search_from_later store (suc fuel) n k h =
      let (j, le, here, there) = search_from_later store fuel (suc n) k (omega arith) in
      let other : (nth k == nth n) ≡ false =
        ==_ne (nth k) (nth n) (λ e. absurd (omega (arith, nth-injective k n e))) in
      let kept : get (remove (nth k) store) (nth n) ≡ get store (nth n) =
        get-remove (nth k) (nth n) store ∙ rw other in
      elim (Bool-cases (is_some (get store (nth n)))) [
        | inl used ↦ (j, omega arith, rw used here, rw (kept, used) there)
        | inr free ↦ (n, omega arith, rw free, rw (kept, free))
      ]

  get-remove_later :
      (store : Files) (j n : ℕ) → n < j → get (remove (nth n) store) (nth j) ≡ get store (nth j)
  get-remove_later store j n h =
      get-remove (nth n) (nth j) store
      ∙ rw (==_ne (nth n) (nth j) (λ e. absurd (omega (arith, nth-injective n j e))))

  -- More fuel than files: the name found is not in use.
  search_from_free :
      (fuel n : ℕ) (store : Files)
      → length store < fuel
      → get store (history_path path_name tier vault_id path (search_from store fuel n)) ≡ none
  unfolding free_name
  search_from_free zero n store h = absurd (omega arith)
  search_from_free (suc fuel) n store h = elim (Bool-cases (is_some (get store (nth n)))) [
    | inl used ↦
        let (j, le, here, there) = search_from_later store fuel (suc n) n (omega arith) in
        let fewer : length (remove (nth n) store) < length store =
          length-remove_lt (nth n) store used in
        let gone = search_from_free fuel (suc n) (remove (nth n) store) (omega arith) in
        rw used (rw here (sym (get-remove_later store j n (omega arith)) ∙ (rw there at gone)))
    | inr free ↦ rw free (ground arith)
  ]

  -- The history entry that a live blob is moved to is not in use, so no history entry is
  -- overwritten.
  pub history_name_free :
      (store : Files)
      → get store (
          history_path path_name tier vault_id path
            (history_name path_name tier vault_id path now store))
        ≡ none
  unfolding history_name entry_name
  history_name_free store = search_from_free (suc (length store)) 0 store (omega arith)
