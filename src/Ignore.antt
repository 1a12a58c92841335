-- ===== src/Ignore.antt =====
-- core/src/ignore.rs: which paths a vault leaves out of the sync.
pub mod Always
use obsink.Base.{
  ℕ, Bool, true, false, not, ◌&&◌, ◌||◌, Option, none, some, List, [], ◌∷◌, ◌++◌, any, map_option,
  if◌then◌else◌,
}
use obsink.Base.Ord.{◌==◌, nat_ord, text_ord}
use obsink.Base.Text.{Text, text, is_empty, trim, trim_start, starts_with, ends_with, split}

-- DEFAULT_IGNORE
abbrev pub default_ignore : List Text
default_ignore =
    text ".obsink/"
    ∷ text "*.obsink-tmp"
    ∷ text ".obsidian/workspace.json"
    ∷ text ".obsidian/workspace-mobile.json"
    ∷ text ".trash/"
    ∷ text ".DS_Store"
    ∷ text ".git/"
    ∷ []

pub data Rule : Type 0 where
  dir suffix exact name : Text → Rule

-- `trim_start_matches("./")`.
unfoldable pub trim_dot_slash : Text → Text
trim_dot_slash [] = []
trim_dot_slash (c ∷ []) = c ∷ []
trim_dot_slash (c ∷ d ∷ cs) =
    let rest = trim_dot_slash cs in if c == b'.' && d == b'/' then rest else c ∷ d ∷ cs

-- `strip_suffix` of one character.
unfoldable pub strip_last : ℕ → Text → Option Text
strip_last at [] = none
strip_last at (c ∷ []) = if c == at then some [] else none
strip_last at (c ∷ d ∷ cs) = map_option (λ (rest : Text). c ∷ rest) (strip_last at (d ∷ cs))

abbrev strip_first : ℕ → Text → Option Text
strip_first at [] = none
strip_first at (c ∷ cs) = if c == at then some cs else none

abbrev unless_empty : (Text → Rule) → Text → Option Rule
unless_empty rule [] = none
unless_empty rule (c ∷ cs) = some (rule (c ∷ cs))

-- A pattern without a trailing slash.
unfoldable pub parse_file : Text → Option Rule
parse_file pattern = elim (strip_first b'*' pattern) [
  | some rest ↦ unless_empty suffix rest
  | none ↦ some (if any (λ c. c == b'/') pattern then exact pattern else name pattern)
]

-- `Rule::parse`.
unfoldable pub parse : Text → Option Rule
unfolding parse_file strip_last trim_dot_slash
parse raw =
    let pattern = trim_dot_slash (trim raw) in
    if is_empty pattern then none else elim (strip_last b'/' pattern) [
      | some rest ↦ unless_empty dir rest
      | none ↦ parse_file pattern
    ]

abbrev below : Text → Text → Bool
below at path = path == at || starts_with path (at ++ text "/")

-- `Rule::matches`.
unfoldable pub matches : Rule → Text → Bool
matches (dir at) path = below at path
matches (suffix end) path = ends_with path end
matches (exact at) path = below at path
matches (name component) path = any (λ part. part == component) (split b'/' path)

abbrev pub IgnoreRules : Type 0
IgnoreRules = List Rule

abbrev push_rule : Option Rule → IgnoreRules → IgnoreRules
push_rule none rules = rules
push_rule (some rule) rules = rule ∷ rules

unfoldable pub from_patterns : List Text → IgnoreRules
unfolding parse
from_patterns [] = []
from_patterns (pattern ∷ patterns) = push_rule (parse pattern) (from_patterns patterns)

unfoldable pub defaults : IgnoreRules
unfolding from_patterns
defaults = from_patterns default_ignore

unfoldable pub with_extra : IgnoreRules → List Text → IgnoreRules
unfolding from_patterns
with_extra rules patterns = rules ++ from_patterns patterns

unfoldable pub is_ignored : IgnoreRules → Text → Bool
unfolding matches trim_start
is_ignored rules path =
    let inner = trim_start (λ c. c == b'/') path in any (λ rule. matches rule inner) rules
