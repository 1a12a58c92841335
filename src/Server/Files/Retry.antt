-- ===== src/Server/Files/Retry.antt =====
-- server/src/routes/files.rs: an upload that a client sends again because its answer was lost.
use obsink.Base.{ℕ, ◌≡◌, ◌≢◌, ◌∙◌, ap, inl, inr, some, length, leb}
use obsink.Base.Ord.{==_refl, text_ord}
use obsink.Base.Text.{Text}
use obsink.Base.Result.{ok}
use obsink.Types.{FileEntry}
use obsink.SyncRules.{add_u64}
use obsink.Server.Blobs.{Bytes, Faults}
use obsink.Server.Db.{Db, rows, current_entry, stored_entry, lock_vault, used_elsewhere}
use obsink.Server.Db.Laws.{written, rows-written, lock_vault-written, used_elsewhere-insert}
use obsink.Server.Files.{
  Server, PutParams, Outcome, already_stored, given_hash, uploaded, conflict_gate,
}
use obsink.Server.Files.Gate.{
  presented, AllRead, put_gate-Checked, Checked-put_gate, conflict_gate_retry,
}
use obsink.Server.Files.Writes.{apply_put_ok, apply_put_passed, apply_put_stored}
use obsink.Server.Files.Races.{put, put_then_current}

-- What a write leaves of the checks of the same upload: the lock and the budget.
used-written :
    (vault_id path : Text) (entry : FileEntry) (now : ℕ) (db : Db)
    → used_elsewhere path (rows (written vault_id path entry now db) vault_id)
      ≡ used_elsewhere path (rows db vault_id)
used-written vault_id path entry now db =
    ap (used_elsewhere path) (rows-written vault_id path entry now db vault_id ∙ rw ==_refl)
    ∙ used_elsewhere-insert path (stored_entry entry) (rows db vault_id)

module _ (path_name : Text → Text) (seal : Text → Text → Bytes → Bytes) (max_vault_bytes : ℕ)
    (f g : Faults) (now later : ℕ) (user_id : Text) (params : PutParams) (body : Bytes)
    (s : Server) where
  abbrev first : Outcome
  first = put path_name seal max_vault_bytes f now user_id params body s

  abbrev SameChecks : Type 0
  SameChecks =
      (lock_vault first.1.db params.vault_id user_id ≡ lock_vault s.db params.vault_id user_id)
      × (used_elsewhere params.path (rows first.1.db params.vault_id)
          ≡ used_elsewhere params.path (rows s.db params.vault_id))

  checks_kept : first.0 ≡ ok tt → SameChecks
  checks_kept done =
      let (hash, given, how) =
        apply_put_ok path_name seal max_vault_bytes f now user_id params body s done in
      elim how [
        | inl (same, _, _, _, _) ↦ (
          ap (λ (t : Server). lock_vault t.db params.vault_id user_id) same,
          ap (λ (t : Server). used_elsewhere params.path (rows t.db params.vault_id)) same,
        )
        | inr (wrote, _) ↦
            let entry =
              uploaded params hash (current_entry s.db params.vault_id params.path) now
                (length body) in
            (
              rw wrote (
                  lock_vault-written params.vault_id params.path entry now s.db params.vault_id
                    user_id),
              rw wrote (used-written params.vault_id params.path entry now s.db),
            )
      ]

  -- After a successful upload the same upload succeeds again, whatever fails in the blob store and
  -- in the commit, and leaves the server as it is, provided that the statements that it reads the
  -- tables with succeed, and unless the upload gave a file the hash that it named as its parent.
  pub put_again :
      first.0 ≡ ok tt
      → given_hash params ≢ some (presented params.parent_hash)
      → AllRead g
      → put path_name seal max_vault_bytes g later user_id params body first.1 ≡ (ok tt, first.1)
  put_again done stale readable =
      let (gate, passed) =
        apply_put_passed path_name seal max_vault_bytes f now user_id params body s done in
      let (hash, max_size, valid, given, locked, fits, budget, _) =
        put_gate-Checked max_vault_bytes f s.db user_id params (length body) gate passed in
      let (c, is_current, given', alive) =
        put_then_current path_name seal max_vault_bytes f now user_id params body s done in
      let same_hash : c.hash ≡ hash = cc (given, given') in
      let (lock_same, used_same) = checks_kept done in
      let gated : conflict_gate params hash (current_entry first.1.db params.vault_id params.path)
          ≡ ok already_stored =
        ap (conflict_gate params hash) is_current
        ∙ conflict_gate_retry params hash c same_hash alive (λ e. stale (given ∙ ap some e)) in
      apply_put_stored path_name seal max_vault_bytes g later user_id params body first.1 (
        Checked-put_gate max_vault_bytes g first.1.db user_id params (length body) already_stored
          readable
          (
            hash,
            max_size,
            valid,
            given,
            lock_same ∙ locked,
            fits,
            ap (λ (used : ℕ). leb (add_u64 used (length body)) max_vault_bytes) used_same ∙ budget,
            gated,
          ))
