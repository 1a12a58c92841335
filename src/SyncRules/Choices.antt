-- ===== src/SyncRules/Choices.antt =====
-- What a conflict choice comes to.
use obsink.Base.{◌≡◌, ◌↔◌, true, false, some, arith}
use obsink.Types.{
  delete_remote, Conflict, ConflictResolutionChoice, keep_local, keep_remote, keep_both, defer,
}
use obsink.Manifest.{gone, version}
use obsink.SyncRules.{effective_choice, conflict_to_upload}

-- Both sides are kept only where the user chose that and both sides exist.
pub keep_both_iff :
    (choice : ConflictResolutionChoice) (c : Conflict)
    → (effective_choice choice c ≡ keep_both)
      ↔ ((choice ≡ keep_both) × (c.local.deleted ≡ false) × (c.remote.deleted ≡ false))
unfolding effective_choice
keep_both_iff keep_local c = ground arith
keep_both_iff keep_remote c = ground arith
keep_both_iff keep_both c = ground arith
keep_both_iff defer c = ground arith

-- A choice to keep both loses no live side: where a side is gone, the other one is kept.
pub keep_both_live :
    (c : Conflict)
    → (c.remote.deleted ≡ true → effective_choice keep_both c ≡ keep_local)
      × (c.remote.deleted ≡ false
          → c.local.deleted ≡ true
          → effective_choice keep_both c ≡ keep_remote)
unfolding effective_choice
keep_both_live c = ground arith

-- The action that keeps the local side is a remote delete exactly if the local side is gone, and
-- it carries the local version.
pub conflict_to_upload_lem :
    (c : Conflict)
    → (version (conflict_to_upload c).local ≡ version (some c.local))
      × (((conflict_to_upload c).kind ≡ delete_remote) ↔ (version (some c.local) ≡ gone))
unfolding conflict_to_upload version
conflict_to_upload_lem c = ground arith
