-- ===== src/Server/Batch/Parse.antt =====
-- What a batch has been checked for before anything is applied.
use obsink.Base.{ℕ, suc, ◌≡◌, Option, none, some, List, [], ◌∷◌, length, leb, find, unwrap_or, zero}
use obsink.Base.Ord.{nat_ord, text_ord}
use obsink.Base.Text.{Text}
use obsink.Base.BTreeMap.{Map, keys}
use obsink.Base.Result.{Result, ok}
use obsink.Server.Blobs.{Bytes}
use obsink.Server.Batch.{WireOp, OpKind, put, delete, ParsedOp, parse_kind, parse_ops, Parts}

-- The bytes that an operation brings.
abbrev pub bytes_of : OpKind → Option Bytes
bytes_of (put _ _ bytes) = some bytes
bytes_of delete = none

-- The bytes of the operation at a position.
abbrev pub bytes_at : List ParsedOp → ℕ → Option Bytes
bytes_at [] i = none
bytes_at (op ∷ ops) zero = bytes_of op.kind
bytes_at (op ∷ ops) (suc i) = bytes_at ops i

-- An accepted list starts with the accepted first operation.
abbrev Accepted : ℕ → WireOp → List WireOp → Map ℕ Bytes → List ParsedOp → Type 0
Accepted index op ops contents parsed =
    (kind : OpKind) × (rest : Map ℕ Bytes) × (others : List ParsedOp) × (parse_kind index op
        contents
      ≡ ok (kind, rest))
    × (parse_ops (suc index) ops rest ≡ ok others)
    × (parsed
        ≡ record { path = unwrap_or op.path []; parent_hash = op.parent_hash; kind = kind }
          ∷ others)

-- What an accepted batch has passed.
abbrev Passed : List WireOp → Parts → List ParsedOp → Type 0
Passed wire parts ops =
    (find (leb (length wire)) (keys parts.contents) ≡ none)
    × (parse_ops 0 wire parts.contents ≡ ok ops)
