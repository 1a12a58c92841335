-- ===== src/SyncRules/Copies.antt =====
-- core/src/sync_rules.rs: the path of the copy that keeps the server's version of a conflict, for a
-- relative path without empty, `.` or `..` components, as a vault has them.
use obsink.Base.{
  ℕ, ◌+◌, ◌≡◌, Option, none, some, [], ◌∷◌, ◌++◌, length, length-append, arith, if◌then◌else◌, inl,
  inr, Option-cases,
}
use obsink.Base.Ord.{◌==◌, nat_ord}
use obsink.Base.Text.{Text, text}

-- The parts before and after the last `at`.
unfoldable rsplit_once : ℕ → Text → Option (Text × Text)
rsplit_once at [] = none
rsplit_once at (c ∷ cs) = elim (rsplit_once at cs) [
  | some found ↦ some (c ∷ found.0, found.1)
  | none ↦ if c == at then some ([], cs) else none
]

-- A file name with `.conflict` before its extension; a leading dot begins no extension.
unfoldable mark_name : Text → Text
unfolding rsplit_once
mark_name name = elim (rsplit_once b'.' name) [
  | none ↦ name ++ text ".conflict"
  | some found ↦ elim found.0 [
    | [] ↦ name ++ text ".conflict"
    | c ∷ stem ↦ c ∷ stem ++ text ".conflict." ++ found.1
  ]
]

unfoldable pub conflict_copy_path : Text → Text
unfolding rsplit_once mark_name
conflict_copy_path original = elim (rsplit_once b'/' original) [
  | none ↦ mark_name original
  | some found ↦ found.0 ++ text "/" ++ mark_name found.1
]

length-rsplit_once :
    (at : ℕ) (cs before after : Text)
    → rsplit_once at cs ≡ some (before, after)
    → length cs ≡ length before + 1 + length after
unfolding rsplit_once
length-rsplit_once at [] before after h = ground arith
length-rsplit_once at (c ∷ cs) before after h = elim (Option-cases (rsplit_once at cs)) [
  | inr (found, e) ↦ ground (arith, e, length-rsplit_once at cs found.0 found.1 e, h)
  | inl e ↦ ground (arith, e, h)
]

length-mark_name : (name : Text) → length (mark_name name) ≡ length name + 9
unfolding mark_name
length-mark_name name = elim (Option-cases (rsplit_once b'.' name)) [
  | inl e ↦ rw (e, mark_name) (length-append name (text ".conflict"))
  | inr (([], extension), e) ↦ rw (e, mark_name) (length-append name (text ".conflict"))
  | inr ((c ∷ stem, extension), e) ↦
      rw (e, mark_name)
        (ground (
          arith,
          length-append (c ∷ stem ++ text ".conflict.") extension,
          length-append (c ∷ stem) (text ".conflict."),
          length-rsplit_once b'.' name (c ∷ stem) extension e,
        ))
]

-- The copy of a conflict is nine characters longer than the path, so it is another path.
pub length-conflict_copy_path :
    (original : Text) → length (conflict_copy_path original) ≡ length original + 9
unfolding conflict_copy_path
length-conflict_copy_path original = elim (Option-cases (rsplit_once b'/' original)) [
  | inl e ↦ rw (e, conflict_copy_path) (length-mark_name original)
  | inr (found, e) ↦
      rw (e, conflict_copy_path)
        (omega (
          arith,
          length-append (found.0 ++ text "/") (mark_name found.1),
          length-append found.0 (text "/"),
          length-mark_name found.1,
          length-rsplit_once b'/' original found.0 found.1 e,
        ))
]
