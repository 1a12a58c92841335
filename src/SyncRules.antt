-- ===== src/SyncRules.antt =====
-- core/src/sync_rules.rs: how uploads are batched and how a conflict choice is applied.
pub mod Batches
pub mod Choices
pub mod Copies
use obsink.Base.{
  ℕ, suc, ◌+◌, ◌-◌, ◌*◌, ◌%◌, ◌^◌, Bool, true, false, not, ◌&&◌, ◌||◌, Option, none, some, List, [],
  ◌∷◌, ◌++◌, ltb, leb, length, map_option, if◌then◌else◌,
}
use obsink.Base.Text.{Text}
use obsink.Types.{
  FileEntry, SyncAction, SyncActionKind, upload, delete_remote, Conflict, ConflictResolutionChoice,
  keep_local, keep_remote, keep_both,
}

-- BATCH_BYTE_BUDGET
abbrev pub batch_byte_budget : ℕ
batch_byte_budget = 32 * 1024 * 1024

-- BATCH_MAX_OPS
abbrev pub batch_max_ops : ℕ
batch_max_ops = 64

-- Addition on `u64`.
abbrev pub add_u64 : ℕ → ℕ → ℕ
add_u64 a b = (a + b) % 2 ^ 64

-- A half-open range of indices.
pub record Range : Type 0 where
  pub start : ℕ
  pub end : ℕ

-- The variables of the loop.
pub record Chunks : Type 0 where
  pub batches : List Range
  pub start : ℕ
  pub bytes : ℕ

-- One round, for the upload `index` of `size` bytes.
unfoldable pub chunk_step : Chunks → ℕ → ℕ → Chunks
chunk_step c index size =
    let full =
      ltb c.start index
      && (ltb batch_byte_budget (add_u64 c.bytes size) || leb batch_max_ops (index - c.start)) in
    if full
    then record {
      batches = c.batches ++ record { start = c.start; end = index } ∷ [];
      start = index;
      bytes = add_u64 0 size;
    }
    else record c { bytes = add_u64 c.bytes size }

unfoldable pub chunk_loop : ℕ → List ℕ → Chunks → Chunks
unfolding chunk_step
chunk_loop index [] c = c
chunk_loop index (size ∷ sizes) c = chunk_loop (suc index) sizes (chunk_step c index size)

-- The batch that is still open after the loop.
unfoldable pub close_batch : ℕ → Chunks → List Range
close_batch count c =
    if ltb c.start count
    then c.batches ++ record { start = c.start; end = count } ∷ []
    else c.batches

unfoldable pub chunk_uploads : List ℕ → List Range
unfolding chunk_loop close_batch
chunk_uploads sizes =
    close_batch (length sizes) (chunk_loop 0 sizes (record { batches = []; start = 0; bytes = 0 }))

unfoldable pub effective_choice : ConflictResolutionChoice → Conflict → ConflictResolutionChoice
effective_choice keep_both conflict =
    if conflict.remote.deleted
    then keep_local
    else if conflict.local.deleted
    then keep_remote
    else keep_both
effective_choice other conflict = other

unfoldable pub conflict_to_upload : Conflict → SyncAction
conflict_to_upload conflict = record {
  path = conflict.path;
  kind = if conflict.local.deleted then delete_remote else upload;
  local = some conflict.local;
  remote = some conflict.remote;
}

abbrev non_empty : Text → Option Text
non_empty [] = none
non_empty (c ∷ cs) = some (c ∷ cs)

-- The remote hash that the server checks; a synthesized tombstone has none.
unfoldable pub parent_hash : SyncAction → Option Text
parent_hash action = elim action.remote [ none ↦ none | some entry ↦ non_empty entry.hash ]
