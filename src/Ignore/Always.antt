-- ===== src/Ignore/Always.antt =====
-- What no vault's own patterns change.
use obsink.Base.{◌≡◌, refl, Bool, true, List, [], ◌∷◌, ◌++◌, any, arith, some}
use obsink.Base.Ord.{nat_ord, text_ord}
use obsink.Base.Text.{Text, text, starts_with, trim, is_whitespace}
use obsink.Ignore.{
  trim_dot_slash, strip_last, Rule, IgnoreRules, dir, parse, matches, from_patterns, defaults,
  with_extra, is_ignored,
}

any-append : (p : Rule → Bool) (xs ys : List Rule) → any p xs ≡ true → any p (xs ++ ys) ≡ true
any-append p [] ys h = ground (arith, h)
any-append p (x ∷ xs) ys h = ground (arith, any-append p xs ys, h)

-- A vault's own patterns only add to what is ignored.
pub with_extra_keeps :
    (rules : IgnoreRules) (patterns : List Text) (path : Text)
    → is_ignored rules path ≡ true
    → is_ignored (with_extra rules patterns) path ≡ true
unfolding is_ignored with_extra
with_extra_keeps rules patterns path h = any-append _ rules (from_patterns patterns) h

starts_with-append : (s t : Text) → starts_with (s ++ t) s ≡ true
unfolding starts_with
starts_with-append [] t = refl
starts_with-append (c ∷ s) t = ground (arith, starts_with-append s t)

parse_state : parse (text ".obsink/") ≡ some (dir (text ".obsink"))
unfolding parse trim is_whitespace trim_dot_slash strip_last
parse_state = refl

dir_matches : (at rest : Text) → matches (dir at) (at ++ text "/" ++ rest) ≡ true
unfolding matches
dir_matches at rest = ground (arith, starts_with-append (at ++ text "/") rest)

pub state_default : (rest : Text) → is_ignored defaults (text ".obsink/" ++ rest) ≡ true
unfolding is_ignored defaults text_ord
state_default rest = rw parse_state (ground (arith, dir_matches (text ".obsink") rest))

-- The state of the sync is never synced, whatever patterns a vault adds.
pub state_ignored :
    (patterns : List Text) (rest : Text)
    → is_ignored (with_extra defaults patterns) (text ".obsink/" ++ rest) ≡ true
state_ignored patterns rest = with_extra_keeps defaults patterns _ (state_default rest)
