-- ===== src/SyncRules/Batches.antt =====
-- The batches of `chunk_uploads` cover the uploads in order, within both limits.
use obsink.Base.{
  ℕ, zero, suc, ◌+◌, ◌-◌, ◌^◌, ◌≤◌, ◌<◌, ◌≡◌, refl, sym, ◌∙◌, ap, ◌⊎◌, inl, inr, List, [], ◌∷◌,
  ◌++◌, All, All-append, length, arith, ltb, leb, ltb→lt, Bool, ◌&&◌, ◌||◌, Bool-cases, subst,
}
use obsink.SyncRules.{
  batch_byte_budget, batch_max_ops, add_u64, Range, Chunks, chunk_step, chunk_loop, close_batch,
  chunk_uploads,
}

-- The bytes of the first `n` uploads.
abbrev pub prefix_bytes : List ℕ → ℕ → ℕ
prefix_bytes [] n = 0
prefix_bytes (x ∷ xs) zero = 0
prefix_bytes (x ∷ xs) (suc n) = x + prefix_bytes xs n

-- Non-empty ranges, each beginning where the one before it ends, from `a` to `b`.
abbrev pub Consecutive : ℕ → List Range → ℕ → Type 0
Consecutive a [] b = a ≡ b
Consecutive a (r ∷ rs) b = (r.start ≡ a) × (r.start < r.end) × Consecutive r.end rs b

-- At most `batch_max_ops` uploads, and at most `batch_byte_budget` bytes unless it is a single one.
abbrev pub Within : (ℕ → ℕ) → Range → Type 0
Within bytes r =
    (r.end ≤ r.start + batch_max_ops)
    × ((r.end ≤ r.start + 1) ⊎ (bytes r.end ≤ bytes r.start + batch_byte_budget))

Consecutive-push :
    (rs : List Range) (a b : ℕ) (r : Range)
    → Consecutive a rs b
    → r.start ≡ b
    → r.start < r.end
    → Consecutive a (rs ++ r ∷ []) r.end
Consecutive-push [] a b r h e lt = (e ∙ sym h, lt, refl)
Consecutive-push (q ∷ rs) a b r h e lt = (h.0, h.1, Consecutive-push rs q.end b r h.2 e lt)

-- `bytes` adds up the sizes from `index` on.
abbrev AddsUp : (ℕ → ℕ) → ℕ → List ℕ → Type 0
AddsUp bytes index [] = Unit
AddsUp bytes index (size ∷ sizes) =
    (bytes (suc index) ≡ bytes index + size) × AddsUp bytes (suc index) sizes

-- The test of `chunk_step`.
abbrev is_full : Chunks → ℕ → ℕ → Bool
is_full c index size =
    ltb c.start index
    && (ltb batch_byte_budget (add_u64 c.bytes size) || leb batch_max_ops (index - c.start))

record IsChunked (bytes : ℕ → ℕ) (index : ℕ) (c : Chunks) : Type 0 where
  consecutive : Consecutive 0 c.batches c.start
  within : All (Within bytes) c.batches
  begun : c.start ≤ index
  counted : bytes index ≡ bytes c.start + c.bytes
  room : index ≤ c.start + batch_max_ops
  budget : (index ≤ c.start + 1) ⊎ (c.bytes ≤ batch_byte_budget)
  small : c.bytes < 2 ^ 63

module _ (bytes : ℕ → ℕ) where
  chunk_step-IsChunked :
      (index size : ℕ) (c : Chunks)
      → bytes (suc index) ≡ bytes index + size
      → size < 2 ^ 63
      → IsChunked bytes index c
      → IsChunked bytes (suc index) (chunk_step c index size)
  unfolding chunk_step
  chunk_step-IsChunked index size c e lt v = elim (Bool-cases (is_full c index size)) [
    | inl full ↦
        let r : Range = record { start = c.start; end = index } in
        let begun : c.start < index = ground arith in
        rw full (record {
          consecutive = Consecutive-push c.batches 0 c.start r v.consecutive refl begun;
          within =
              All-append (Within bytes) c.batches (r ∷ []) v.within
                ((v.room, ground (arith, v.counted, v.budget)), tt);
          begun = omega arith;
          counted = omega arith;
          room = omega arith;
          budget = inl (omega arith);
          small = omega arith;
        })
    | inr more ↦ rw more (record {
      consecutive = v.consecutive;
      within = v.within;
      begun = omega (arith, v.begun);
      counted = omega (arith, v.counted, v.small);
      room = ground (arith, v.room, v.begun);
      budget = ground (arith, v.begun, v.small);
      small = ground (arith, v.begun, v.small, v.counted, v.budget);
    })
  ]

  chunk_loop-IsChunked :
      (sizes : List ℕ) (index : ℕ) (c : Chunks)
      → AddsUp bytes index sizes
      → All (λ size. size < 2 ^ 63) sizes
      → IsChunked bytes index c
      → IsChunked bytes (index + length sizes) (chunk_loop index sizes c)
  unfolding chunk_loop
  chunk_loop-IsChunked [] index c adds lt v = let e : index + 0 ≡ index = omega arith in rw e v
  chunk_loop-IsChunked (size ∷ sizes) index c adds lt v =
      let e : index + suc (length sizes) ≡ suc index + length sizes = omega arith in
      rw e (
        chunk_loop-IsChunked sizes (suc index) (chunk_step c index size) adds.1 lt.1
          (chunk_step-IsChunked index size c adds.0 lt.0 v))

  close_batch-Consecutive :
      (count : ℕ) (c : Chunks) → IsChunked bytes count c → Consecutive 0 (close_batch count c) count
  unfolding close_batch
  close_batch-Consecutive count c v = elim (Bool-cases (ltb c.start count)) [
    | inl left ↦ rw left (
        Consecutive-push c.batches 0 c.start (record { start = c.start; end = count }) v.consecutive
          refl (ltb→lt c.start count left))
    | inr done ↦
        let e : c.start ≡ count = ground (arith, v.begun) in
        rw done (subst (Consecutive 0 c.batches) e v.consecutive)
  ]

  close_batch-Within :
      (count : ℕ) (c : Chunks) → IsChunked bytes count c → All (Within bytes) (close_batch count c)
  unfolding close_batch
  close_batch-Within count c v = elim (Bool-cases (ltb c.start count)) [
    | inl left ↦ rw left (
        All-append (Within bytes) c.batches (record { start = c.start; end = count } ∷ []) v.within
          ((v.room, ground (arith, v.counted, v.budget)), tt))
    | inr done ↦ rw done v.within
  ]

empty-IsChunked :
    (bytes : ℕ → ℕ) → IsChunked bytes 0 (record { batches = []; start = 0; bytes = 0 })
empty-IsChunked bytes = record {
  consecutive = refl;
  within = tt;
  begun = omega arith;
  counted = omega arith;
  room = omega arith;
  budget = inl (omega arith);
  small = omega arith;
}

prefix_bytes-zero : (sizes : List ℕ) → prefix_bytes sizes 0 ≡ 0
prefix_bytes-zero [] = refl
prefix_bytes-zero (size ∷ sizes) = refl

prefix_bytes-AddsUp :
    (sizes : List ℕ) (bytes : ℕ → ℕ) (index : ℕ)
    → ((n : ℕ) → bytes (index + n) ≡ bytes index + prefix_bytes sizes n)
    → AddsUp bytes index sizes
prefix_bytes-AddsUp [] bytes index h = tt
prefix_bytes-AddsUp (size ∷ sizes) bytes index h =
    let one : bytes (suc index) ≡ bytes index + size =
      ap bytes (omega arith) ∙ h 1 ∙ omega (arith, prefix_bytes-zero sizes) in
    (
      one,
      prefix_bytes-AddsUp sizes bytes (suc index)
          λ n. ap bytes (omega arith) ∙ h (suc n) ∙ omega (arith, one),
    )

abbrev start_chunks : Chunks
start_chunks = record { batches = []; start = 0; bytes = 0 }

chunked :
    (sizes : List ℕ)
    → All (λ size. size < 2 ^ 63) sizes
    → IsChunked (prefix_bytes sizes) (length sizes) (chunk_loop 0 sizes start_chunks)
chunked sizes small =
    let bytes = prefix_bytes sizes in
    let e : 0 + length sizes ≡ length sizes = omega arith in
    rw e at (
      chunk_loop-IsChunked bytes sizes 0 start_chunks
        (prefix_bytes-AddsUp sizes bytes 0
          λ n. let z : 0 + n ≡ n = omega arith in rw z (omega (arith, prefix_bytes-zero sizes)))
        small (empty-IsChunked bytes))

-- The batches are non-empty consecutive ranges that cover every upload, in order, for sizes below 2
-- ^ 63.
pub chunk_uploads-Consecutive :
    (sizes : List ℕ)
    → All (λ size. size < 2 ^ 63) sizes
    → Consecutive 0 (chunk_uploads sizes) (length sizes)
unfolding chunk_uploads
chunk_uploads-Consecutive sizes small =
    close_batch-Consecutive (prefix_bytes sizes) (length sizes) _ (chunked sizes small)

-- No batch has more than `batch_max_ops` uploads, nor more than `batch_byte_budget` bytes unless it
-- is a single upload, for sizes below 2 ^ 63.
pub chunk_uploads-Within :
    (sizes : List ℕ)
    → All (λ size. size < 2 ^ 63) sizes
    → All (Within (prefix_bytes sizes)) (chunk_uploads sizes)
unfolding chunk_uploads
chunk_uploads-Within sizes small =
    close_batch-Within (prefix_bytes sizes) (length sizes) _ (chunked sizes small)
