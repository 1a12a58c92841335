-- ===== src/Server/Files/Races.antt =====
-- Two devices on one path: no update is lost, and a retried upload is no conflict.
use obsink.Base.{ℕ, ◌≡◌, ◌≢◌, refl, sym, ◌∙◌, ap, false, inl, inr, some, length}
use obsink.Base.Ord.{text_ord}
use obsink.Base.Text.{Text}
use obsink.Base.Result.{ok, err, Result-cases}
use obsink.Types.{FileEntry}
use obsink.Server.Error.{ApiError}
use obsink.Server.Blobs.{Bytes, Faults}
use obsink.Server.Db.{Db, current_entry, stored_entry}
use obsink.Server.Files.{Server, PutParams, Outcome, apply_put, given_hash, uploaded}
use obsink.Server.Files.Gate.{presented}
use obsink.Server.Files.Writes.{apply_put_ok, apply_put_err, current_entry_written}

some_inj : (c d : FileEntry) → some c ≡ some d → c ≡ d
some_inj c d h = cc h

module _ (path_name : Text → Text) (seal : Text → Text → Bytes → Bytes) (max_vault_bytes : ℕ) where
  -- One upload, with the faults and the time that it meets.
  abbrev pub put : Faults → ℕ → Text → PutParams → Bytes → Server → Outcome
  put = apply_put path_name seal max_vault_bytes

  -- After a successful upload the current entry is live and has the hash that was offered.
  pub put_then_current :
      (faults : Faults) (now : ℕ) (user_id : Text) (params : PutParams) (body : Bytes) (s : Server)
      → (put faults now user_id params body s).0 ≡ ok tt
      → (e : FileEntry) × (current_entry
            (put faults now user_id params body s).1.db
            params.vault_id
            params.path
          ≡ some e)
        × (given_hash params ≡ some e.hash)
        × (e.deleted ≡ false)
  put_then_current faults now user_id params body s h =
      let (hash, given, done) =
        apply_put_ok path_name seal max_vault_bytes faults now user_id params body s h in
      elim done [
        | inl (same, c, is_current, matches, alive) ↦ (
          c,
          ap (λ (t : Server). current_entry t.db params.vault_id params.path) same ∙ is_current,
          rw matches given,
          alive,
        )
        | inr (written, _) ↦
            let current = current_entry s.db params.vault_id params.path in
            (
              stored_entry (uploaded params hash current now (length body)),
              ap (λ (d : Db). current_entry d params.vault_id params.path) written
                  ∙ current_entry_written params.vault_id params.path
                      (uploaded params hash current now (length body)) now s.db,
              unfold uploaded in given,
              unfold uploaded in refl,
            )
      ]

  no_stale :
      (faults : Faults) (now : ℕ) (user_id : Text) (params : PutParams) (body : Bytes) (s : Server)
      (c : FileEntry)
      → current_entry s.db params.vault_id params.path ≡ some c
      → c.hash ≢ presented params.parent_hash
      → given_hash params ≢ some c.hash
      → (put faults now user_id params body s).0 ≡ ok tt
      → ⊥
  no_stale faults now user_id params body s c is_current stale other h =
      let (hash, given, done) =
        apply_put_ok path_name seal max_vault_bytes faults now user_id params body s h in
      elim done [
        | inl (same, d, is_d, matches, alive) ↦ other (
            given
            ∙ ap some (
                sym matches
                ∙ ap (λ (x : FileEntry). x.hash) (some_inj d c (sym is_d ∙ is_current))))
        | inr (written, inl absent) ↦ cc (absent, is_current)
        | inr (written, inr (d, is_d, matches)) ↦
            stale (ap (λ (x : FileEntry). x.hash) (some_inj c d (sym is_current ∙ is_d)) ∙ matches)
      ]

  -- An upload never replaces an entry that it was not made from: with a stale parent and other
  -- bytes than the entry's it fails, and the tables stay as they are.
  pub stale_put_fails :
      (faults : Faults) (now : ℕ) (user_id : Text) (params : PutParams) (body : Bytes) (s : Server)
      (c : FileEntry)
      → current_entry s.db params.vault_id params.path ≡ some c
      → c.hash ≢ presented params.parent_hash
      → given_hash params ≢ some c.hash
      → (e : ApiError) × ((put faults now user_id params body s).0 ≡ err e)
        × ((put faults now user_id params body s).1.db ≡ s.db)
  stale_put_fails faults now user_id params body s c is_current stale other =
      elim (Result-cases (put faults now user_id params body s).0) [
        | inr (e, failed) ↦ (
          e,
          failed,
          apply_put_err path_name seal max_vault_bytes faults now user_id params body s e failed,
        )
        | inl (tt, done) ↦
            absurd (no_stale faults now user_id params body s c is_current stale other done)
      ]

  -- Two devices that upload different bytes for one path from the same parent: if the first upload
  -- succeeds, the second one fails and the first one's entry stays, provided that the first one's
  -- hash is not the parent that the second one presents.
  pub one_of_two_wins :
      (f g : Faults) (now later : ℕ) (user user' : Text) (p q : PutParams) (a b : Bytes)
      (s : Server)
      → q.vault_id ≡ p.vault_id
      → q.path ≡ p.path
      → given_hash q ≢ given_hash p
      → given_hash p ≢ some (presented q.parent_hash)
      → (put f now user p a s).0 ≡ ok tt
      → let t = (put f now user p a s).1 in
        (e : ApiError) × ((put g later user' q b t).0 ≡ err e)
        × ((put g later user' q b t).1.db ≡ t.db)
  one_of_two_wins f g now later user user' p q a b s same_vault same_path differ stale done =
      let (c, is_current, given, alive) = put_then_current f now user p a s done in
      stale_put_fails g later user' q b _ c (rw (same_vault, same_path) is_current)
        (λ e. stale (given ∙ ap some e)) (λ e. differ (e ∙ sym given))
