-- ===== src/Base/Text.antt =====
-- Rust's strings as lists of Unicode scalar values: `str` orders by UTF-8 bytes, which is the order
-- of the scalar values. A literal is written `text "..."`.
pub mod Decimal
use Prim.Native.Nat.{ℕ, suc, ◌+◌, ◌-◌, ◌≤◌}
use Prim.Native.Char.{code}
use Prim.Native.String.{String}
use mathlib.Core.Bool.{Bool, true, false, not, ◌&&◌, ◌||◌}
use mathlib.Core.List.{List, [], ◌∷◌, ◌++◌}
use obsink.Base.Tests.{ltb, leb, if◌then◌else◌}
use obsink.Base.Ord.{◌==◌, nat_ord, text_ord}

abbrev pub Text : Type 0
Text = List ℕ

abbrev pub text : String → Text
text String.[] = []
text (String.◌∷◌ c s) = code c ∷ text s

-- `str::len`: the bytes of the UTF-8 encoding.
unfoldable pub utf8_len : Text → ℕ
utf8_len [] = 0
utf8_len (c ∷ cs) =
    (if ltb c 0x80 then 1 else if ltb c 0x800 then 2 else if ltb c 0x10000 then 3 else 4)
    + utf8_len cs

abbrev pub is_empty : Text → Bool
is_empty [] = true
is_empty (_ ∷ _) = false

unfoldable pub is_ascii_digit : ℕ → Bool
is_ascii_digit c = leb b'0' c && leb c b'9'

-- `char::is_whitespace`, the White_Space property.
unfoldable pub is_whitespace : ℕ → Bool
is_whitespace c =
    (leb 9 c && leb c 13)
    || (c == 0x20 || c == 0x85 || c == 0xa0 || c == 0x1680)
    || (leb 0x2000 c && leb c 0x200a)
    || (c == 0x2028 || c == 0x2029 || c == 0x202f || c == 0x205f || c == 0x3000)

unfoldable pub trim_start : (ℕ → Bool) → Text → Text
trim_start p [] = []
trim_start p (c ∷ cs) = let rest = trim_start p cs in if p c then rest else c ∷ cs

unfoldable pub trim_end : (ℕ → Bool) → Text → Text
trim_end p [] = []
trim_end p (c ∷ cs) = let rest = trim_end p cs in if is_empty rest && p c then [] else c ∷ rest

-- `str::trim`.
unfoldable pub trim : Text → Text
unfolding trim_start trim_end is_whitespace
trim s = trim_end is_whitespace (trim_start is_whitespace s)

unfoldable pub starts_with : Text → Text → Bool
starts_with s [] = true
starts_with [] (p ∷ ps) = false
starts_with (c ∷ cs) (p ∷ ps) = c == p && starts_with cs ps

-- `str::split` at a character.
abbrev push_part : Text → List Text → ℕ → List Text
push_part part [] c = (c ∷ part) ∷ []
push_part part (p ∷ ps) c = (c ∷ p) ∷ ps

unfoldable pub split : ℕ → Text → List Text
split at [] = [] ∷ []
split at (c ∷ cs) = let rest = split at cs in if c == at then [] ∷ rest else push_part [] rest c

-- `str::ends_with`.
unfoldable pub ends_with : Text → Text → Bool
ends_with [] suffix = is_empty suffix
ends_with (c ∷ cs) suffix = c ∷ cs == suffix || ends_with cs suffix
