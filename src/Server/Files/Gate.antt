-- ===== src/Server/Files/Gate.antt =====
-- The conflict gate: what an accepted write has been checked for, and what a refused one leaves.
use obsink.Base.{
  ℕ, ◌≡◌, ◌≢◌, refl, true, false, ◌⊎◌, inl, Option, none, some, [], arith, leb, unwrap_or,
}
use obsink.Base.Ord.{==_iff, text_ord}
use obsink.Base.Text.{Text}
use obsink.Base.Result.{ok, err}
use obsink.Types.{FileEntry}
use obsink.SyncRules.{add_u64}
use obsink.Server.Error.{conflict}
use obsink.Server.Blobs.{Faults, valid_path}
use obsink.Server.Db.{Db, lock_vault, rows, current_entry, used_elsewhere}
use obsink.Server.Files.{
  PutParams, PutGate, already_stored, write, put_gate, conflict_gate, given_hash, delete_gate,
}

-- The parent hash that a request presents.
abbrev pub presented : Option Text → Text
presented parent = unwrap_or parent []

-- The statements before the writes of a put succeed.
abbrev pub AllRead : Faults → Type 0
AllRead faults =
    (faults.begin_fails ≡ false)
    × (faults.lock_fails ≡ false)
    × (faults.select_fails ≡ false)
    × (faults.sum_fails ≡ false)

-- The checks before the conflict gate, as facts, and the gate's answer.
abbrev pub Checked : ℕ → Db → Text → PutParams → ℕ → PutGate → Type 0
Checked max_vault_bytes db user_id params size gate =
    (hash : Text) × (max_size : ℕ) × (valid_path params.path ≡ true)
    × (given_hash params ≡ some hash)
    × (lock_vault db params.vault_id user_id ≡ ok max_size)
    × (leb size max_size ≡ true)
    × (leb (add_u64 (used_elsewhere params.path (rows db params.vault_id)) size) max_vault_bytes
        ≡ true)
    × (conflict_gate params hash (current_entry db params.vault_id params.path) ≡ ok gate)

module _ (max_vault_bytes : ℕ) (faults : Faults) (db : Db) (user_id : Text) (params : PutParams)
    (size : ℕ) where
  pub put_gate-Checked :
      (gate : PutGate)
      → put_gate max_vault_bytes faults db user_id params size ≡ ok gate
      → Checked max_vault_bytes db user_id params size gate
  unfolding put_gate
  put_gate-Checked gate h = ground arith

  pub Checked-put_gate :
      (gate : PutGate)
      → AllRead faults
      → Checked max_vault_bytes db user_id params size gate
      → put_gate max_vault_bytes faults db user_id params size ≡ ok gate
  unfolding put_gate
  Checked-put_gate gate (began, is_locked, selected, summed)
        (hash, max_size, valid, given, locked, fits, budget, gated) =
      rw (valid, given, began, is_locked, locked, selected, fits, summed, budget) gated

-- A write passes the gate with the entry that it replaces, whose hash is the presented parent.
pub conflict_gate-write :
    (params : PutParams) (hash hash' : Text) (current current' : Option FileEntry)
    → conflict_gate params hash current ≡ ok (write hash' current')
    → (hash' ≡ hash)
      × (current' ≡ current)
      × ((current ≡ none)
          ⊎ ((c : FileEntry) × (current ≡ some c) × (c.hash ≡ presented params.parent_hash)))
unfolding conflict_gate
conflict_gate-write params hash hash' none current' h = ground arith
conflict_gate-write params hash hash' (some c) current' h =
    ground (arith, ==_iff c.hash (presented params.parent_hash))

-- A retried upload finds its own bytes.
pub conflict_gate-stored :
    (params : PutParams) (hash : Text) (current : Option FileEntry)
    → conflict_gate params hash current ≡ ok already_stored
    → (c : FileEntry) × (current ≡ some c) × (c.hash ≡ hash) × (c.deleted ≡ false)
unfolding conflict_gate
conflict_gate-stored params hash none h = cc
conflict_gate-stored params hash (some c) h = ground (arith, ==_iff c.hash hash)

-- The gate refuses exactly a stale parent whose bytes are not the ones offered.
pub conflict_gate-refuses :
    (params : PutParams) (hash : Text) (c : FileEntry)
    → c.hash ≢ presented params.parent_hash
    → c.hash ≢ hash
    → conflict_gate params hash (some c) ≡ err (conflict params.path (some c))
unfolding conflict_gate
conflict_gate-refuses params hash c stale other =
    ground (arith, ==_iff c.hash (presented params.parent_hash), ==_iff c.hash hash, stale, other)

-- A delete passes the gate with the hash of the entry, or where there is none.
pub delete_gate-ok :
    (path : Text) (parent_hash : Option Text) (current : Option FileEntry)
    → delete_gate path parent_hash current ≡ ok tt
    → (current ≡ none) ⊎ ((c : FileEntry) × (current ≡ some c) × (c.hash ≡ presented parent_hash))
unfolding delete_gate
delete_gate-ok path parent_hash none h = inl refl
delete_gate-ok path parent_hash (some c) h = ground (arith, ==_iff c.hash (presented parent_hash))

-- A stale parent is no conflict where the entry has the offered bytes.
pub conflict_gate_retry :
    (params : PutParams) (hash : Text) (c : FileEntry)
    → c.hash ≡ hash
    → c.deleted ≡ false
    → hash ≢ presented params.parent_hash
    → conflict_gate params hash (some c) ≡ ok already_stored
unfolding conflict_gate
conflict_gate_retry params hash c same alive stale =
    ground (arith, ==_iff c.hash (presented params.parent_hash), ==_iff c.hash hash, stale)
