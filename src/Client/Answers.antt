-- ===== src/Client/Answers.antt =====
-- What the engine relies on in the client's answers.
use obsink.Base.{ℕ, suc, ◌≡◌, refl, ap, List, [], ◌∷◌, length, arith, map, inl, inr, Bool-cases}
use obsink.Base.Ord.{◌==◌, ==_iff, nat_ord}
use obsink.Base.Text.{Text}
use obsink.Base.Result.{ok}
use obsink.Base.Io.{continue-ok}
use obsink.Types.{BatchOp, BatchOperationResult}
use obsink.Client.{
  Transport, restore_paths, batch_results, batch, operation_path, send_batch, parse_json,
}

length-restore_paths :
    (paths : List Text) (index : ℕ) (results : List BatchOperationResult)
    → length (restore_paths paths index results) ≡ length results
unfolding restore_paths
length-restore_paths paths index [] = refl
length-restore_paths paths index (r ∷ results) =
    ap suc (length-restore_paths paths (suc index) results)

batch_results-length :
    (ops : List BatchOp) (results out : List BatchOperationResult)
    → batch_results ops results ≡ ok out
    → length out ≡ length ops
unfolding batch_results
batch_results-length ops results out h = elim (Bool-cases (length results == length ops)) [
  | inl same ↦
      let e : length results ≡ length ops = (==_iff (length results) (length ops)).0 same in
      ground (arith, h, same, e, length-restore_paths (map operation_path ops) 0 results)
  | inr other ↦ absurd (ground (arith, h, other))
]

-- A batch that is answered has one result for each operation.
pub batch-length :
    {W : Type 0} (t : Transport W) (ops : List BatchOp) (w : W) (out : List BatchOperationResult)
    → (batch t ops w).0 ≡ ok out
    → length out ≡ length ops
unfolding batch
batch-length t ops w out h =
    let sent = continue-ok (send_batch t 2 ops w) _ out h in
    let read = continue-ok (parse_json t.read_results sent.0, _) _ out sent.2 in
    batch_results-length ops read.0 out read.2
