-- ===== src/Prelude/Words.antt =====
-- Python's text methods that the program uses: white space, `strip`, words and `join`.
use Prim.Native.Nat.{ℕ, ◌≤◌}
use mathlib.Core.Bool.{Bool, ◌&&◌, ◌||◌}
use mathlib.Core.List.{List, [], ◌∷◌, ◌++◌}
use native.Mathlib.Omega.{arith}
use lexicon_revision.Prelude.Tests.{nat_eq, leb, if◌then◌else◌}
use lexicon_revision.Prelude.Lists.{length, is_empty}
use lexicon_revision.Prelude.Strings.{Text}

-- `str.isspace` of one code point, which is also what `\s` matches.
unfoldable pub is_space : ℕ → Bool
is_space c =
    (leb 9 c && leb c 13)
    || (leb 28 c && leb c 32)
    || nat_eq c 133
    || nat_eq c 160
    || nat_eq c 5760
    || (leb 8192 c && leb c 8202)
    || nat_eq c 8232
    || nat_eq c 8233
    || nat_eq c 8239
    || nat_eq c 8287
    || nat_eq c 12288

unfoldable pub rstrip : Text → Text
rstrip [] = []
rstrip (c ∷ s) = let r = rstrip s in if is_empty r && is_space c then [] else c ∷ r

unfoldable pub lstrip : Text → Text
lstrip [] = []
lstrip (c ∷ s) = let r = lstrip s in if is_space c then r else c ∷ s

-- `s.strip()`
unfoldable pub strip : Text → Text
strip s = lstrip (rstrip s)

-- `re.findall(r"\S+", s)`, which is also `s.split()`: the runs that are no white space
unfoldable pub words_from : Text → Text → List Text
words_from word [] = if is_empty word then [] else word ∷ []
words_from word (c ∷ s) =
    let closed = words_from [] s in
    let longer = words_from (word ++ c ∷ []) s in
    if is_space c then (if is_empty word then closed else word ∷ closed) else longer

unfoldable pub words : Text → List Text
words s = words_from [] s

-- `sep.join(parts)`
unfoldable pub join : Text → List Text → Text
join sep [] = []
join sep (p ∷ []) = p
join sep (p ∷ q ∷ ps) = p ++ (sep ++ join sep (q ∷ ps))

pub length-rstrip : (s : Text) → length (rstrip s) ≤ length s
unfolding rstrip
length-rstrip [] = omega arith
length-rstrip (c ∷ s) = ground (arith, length-rstrip s)
