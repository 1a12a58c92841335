-- ===== src/Server/Files/Reads/Fresh.antt =====
-- server/src/routes/files.rs: the manifest handler's answers over the steps of Files/Steps.
use obsink.Base.{
  any-append, ℕ, ◌≡◌, refl, sym, ◌∙◌, ap, Bool, true, false, Option, none, some, [], ◌∷◌, ◌++◌, any,
  arith, inl, inr, Bool-cases,
}
use obsink.Base.Ord.{◌==◌, ==_iff, nat_ord, text_ord}
use obsink.Base.Text.{
  Text, text, trim, trim_start, trim_end, split, is_empty, is_ascii_digit, is_whitespace,
}
use obsink.Base.Text.Decimal.{
  decimal, all_digits, all_digits-decimal, digits_value, digits_value-decimal, decimal_cons,
}
use obsink.Base.BTreeMap.{get}
use obsink.Base.Result.{Result, ok, err, ensure, ◌>>◌}
use obsink.Types.{Manifest}
use obsink.Server.Blobs.{Bytes, valid_vault_id}
use obsink.Server.Db.{Db, VaultRow, Role, rows, require_member}
use obsink.Server.Error.{ApiError}
use obsink.Server.Files.{Server}
use obsink.Server.Files.Steps.{Reach, equal_revision}
use obsink.Server.Files.Reads.{
  ManifestAnswer, listed, not_modified, manifest_answer, answer_member, get_manifest, strip_weak,
  trim_quotes, is_quote, candidate_hits, if_none_match_hits, etag_of,
}

split_none : (at : ℕ) (s : Text) → any (λ c. c == at) s ≡ false → split at s ≡ s ∷ []
unfolding split
split_none at [] h = refl
split_none at (c ∷ s) h =
    let other : (c == at) ≡ false = ground (arith, h) in
    rw (other, split_none at s (ground (arith, h))) refl

module _ (p : ℕ → Bool) where
  is_empty_push : (s : Text) (c : ℕ) → is_empty (s ++ c ∷ []) ≡ false
  is_empty_push [] c = refl
  is_empty_push (x ∷ s) c = refl

  trim_end_keep : (s : Text) (c : ℕ) → p c ≡ false → trim_end p (s ++ c ∷ []) ≡ s ++ c ∷ []
  unfolding trim_end
  trim_end_keep [] c h = ground (arith, h)
  trim_end_keep (x ∷ s) c h = ground (arith, h, trim_end_keep s c h, is_empty_push s c)

  trim_end_drop : (s : Text) (c : ℕ) → p c ≡ true → trim_end p (s ++ c ∷ []) ≡ trim_end p s
  unfolding trim_end
  trim_end_drop [] c h = ground (arith, h)
  trim_end_drop (x ∷ s) c h = ground (arith, trim_end_drop s c h)

  trim_end_none : (s : Text) → any p s ≡ false → trim_end p s ≡ s
  unfolding trim_end
  trim_end_none [] h = refl
  trim_end_none (x ∷ s) h = ground (arith, h, trim_end_none s)

digits_avoid :
    (p : ℕ → Bool)
    → ((c : ℕ) → is_ascii_digit c ≡ true → p c ≡ false)
    → (s : Text) → all_digits s ≡ true
    → any p s ≡ false
unfolding all_digits
digits_avoid p h [] e = refl
digits_avoid p h (c ∷ s) e = ground (arith, h c, digits_avoid p h s, e)

-- The text of an ETag has no comma, and no white space or `W/` around it.
no_comma : (n : ℕ) → any (λ c. c == b',') (etag_of n) ≡ false
unfolding etag_of is_ascii_digit
no_comma n =
    any-append (λ c. c == b',') (b'"' ∷ decimal n) (text "\"")
    ∙ ground (
      arith,
      digits_avoid (λ c. c == b',') (λ c h. ground (arith, h)) (decimal n) (all_digits-decimal n),
    )

trim-etag_of : (n : ℕ) → trim (etag_of n) ≡ etag_of n
unfolding trim trim_start is_whitespace etag_of
trim-etag_of n = trim_end_keep is_whitespace (b'"' ∷ decimal n) b'"' refl

trim_quotes-etag_of : (n : ℕ) → trim_quotes (etag_of n) ≡ decimal n
unfolding trim_quotes trim_start etag_of is_ascii_digit all_digits
trim_quotes-etag_of n =
    let (d, ds, e) = decimal_cons n in
    let first : is_quote d ≡ false = ground (arith, all_digits-decimal n, ap all_digits e) in
    let start : trim_start is_quote (decimal n ++ text "\"") ≡ decimal n ++ text "\"" =
      rw (e, first) refl in
    ap (trim_end is_quote) start
    ∙ trim_end_drop is_quote (decimal n) b'"' refl
    ∙ trim_end_none is_quote (decimal n)
        (digits_avoid is_quote (λ c h. ground (arith, h)) (decimal n) (all_digits-decimal n))

strip_weak-etag_of : (n : ℕ) → strip_weak (etag_of n) ≡ etag_of n
unfolding strip_weak etag_of
strip_weak-etag_of n = let (d, ds, e) = decimal_cons n in rw e refl

not_star : (n : ℕ) → (etag_of n == text "*") ≡ false
unfolding etag_of text_ord
not_star n = refl

-- An ETag hits only the ETag of the same revision.
etag_of-injective : (a b : ℕ) → if_none_match_hits (some (etag_of a)) (etag_of b) ≡ true → a ≡ b
unfolding if_none_match_hits candidate_hits
etag_of-injective a b h =
    let whole = split_none b',' (etag_of a) (no_comma a) in
    let seen : candidate_hits (etag_of b) (etag_of a) ≡ true =
      ground (arith, (rw (whole, trim-etag_of a, strip_weak-etag_of a) at h)) in
    let same : decimal a ≡ decimal b =
      sym (trim_quotes-etag_of a)
      ∙ (==_iff (trim_quotes (etag_of a)) (trim_quotes (etag_of b))).0
          (ground (arith, seen, not_star a))
      ∙ trim_quotes-etag_of b in
    sym (digits_value-decimal a) ∙ ap (digits_value 0) same ∙ digits_value-decimal b

ensured :
    (b : Bool) (e : ApiError) (r : Result ApiError ManifestAnswer) (a : ManifestAnswer)
    → (ensure b e >> r) ≡ ok a
    → r ≡ ok a
ensured true e r a h = h
ensured false e r a h = absurd (ground (arith, h))

answer_member-ok :
    (db : Db) (v : Text) (header : Option Text) (role : Result ApiError Role)
    (found : Option VaultRow) (a : ManifestAnswer)
    → answer_member db v header role found ≡ ok a
    → (row : VaultRow) × (found ≡ some row) × (a ≡ manifest_answer db v header row)
answer_member-ok db v header (err e) found a h = absurd (ground (arith, h))
answer_member-ok db v header (ok role) none a h = absurd (ground (arith, h))
answer_member-ok db v header (ok role) (some row) a h = (row, refl, ground (arith, h))

get_manifest-ok :
    (db : Db) (v user : Text) (header : Option Text) (a : ManifestAnswer)
    → get_manifest db v user header ≡ ok a
    → (row : VaultRow) × (get db.vaults v ≡ some row) × (a ≡ manifest_answer db v header row)
unfolding get_manifest
get_manifest-ok db v user header a h =
    answer_member-ok db v header (require_member db v user) (get db.vaults v) a
      (ensured (valid_vault_id v) _ _ a h)

answer-listed :
    (db : Db) (v : Text) (header : Option Text) (row : VaultRow) (etag : Text) (m : Manifest)
    → listed etag m ≡ manifest_answer db v header row
    → (etag ≡ etag_of row.revision) × (m ≡ rows db v)
answer-listed db v header row etag m h =
    elim (Bool-cases (if_none_match_hits header (etag_of row.revision))) [
      | inl hit ↦ absurd (let h' = (rw hit at h) in ground (arith, h'))
      | inr miss ↦ let h' = (rw miss at h) in (ground (arith, h'), ground (arith, h'))
    ]

answer-not_modified :
    (db : Db) (v : Text) (header : Option Text) (row : VaultRow) (etag : Text)
    → not_modified etag ≡ manifest_answer db v header row
    → if_none_match_hits header (etag_of row.revision) ≡ true
answer-not_modified db v header row etag h =
    elim (Bool-cases (if_none_match_hits header (etag_of row.revision))) [
      | inl hit ↦ hit
      | inr miss ↦ absurd (let h' = (rw miss at h) in ground (arith, h'))
    ]

module _ (path_name : Text → Text) (seal : Text → Text → Bytes → Bytes) (max_vault_bytes : ℕ) where
  -- Between an answer with a manifest and a later one that its ETag is still good, for members of
  -- the vault, the uploads and deletes of any devices left the rows of the vault as they were
  -- listed.
  pub not_modified_current :
      {s t : Server} (v first later : Text) (header : Option Text) (etag again : Text)
      (m : Manifest)
      → Reach path_name seal max_vault_bytes s t
      → get_manifest s.db v first header ≡ ok (listed etag m)
      → get_manifest t.db v later (some etag) ≡ ok (not_modified again)
      → rows t.db v ≡ m
  not_modified_current {s} {t} v first later header etag again m reached asked told =
      let (row, here, said) = get_manifest-ok s.db v first header (listed etag m) asked in
      let listing = answer-listed s.db v header row etag m said in
      let (row', found, le, kept) =
        equal_revision path_name seal max_vault_bytes v row reached here in
      let (row2, here2, said2) =
        get_manifest-ok t.db v later (some etag) (not_modified again) told in
      let hit = answer-not_modified t.db v (some etag) row2 again said2 in
      let revision : row.revision ≡ row2.revision =
        etag_of-injective row.revision row2.revision (rw listing.0 at hit) in
      let same : row2.revision ≡ row'.revision = ground (arith, here2, found) in
      kept (sym same ∙ sym revision) ∙ sym listing.1
