-- ===== src/Rendering/Tests.antt =====
-- Texts with inline math.
use lexicon_revision.Prelude.{codes, filter, join, [], ◌∷◌, none, ◌≡◌, refl}
use lexicon_revision.Rendering.{
  text_run, math_run, paragraph, table, image, with_char, up_to_dollar, nonempty_math, match_at,
  with_text, runs_from, split_inline_math, flatten_run, flatten_runs, flatten_block,
  flatten_render_blocks,
}
use lexicon_revision.Rendering.Inline.{IsSplitInto, split_inline_math-IsSplitInto}

inline : Unit {0}
unfolding filter join with_char up_to_dollar nonempty_math match_at with_text runs_from
    split_inline_math flatten_run flatten_runs flatten_block flatten_render_blocks
inline = tt

two_runs :
    split_inline_math (codes "Let $x$.")
    ≡ text_run (codes "Let ") ∷ math_run (codes "x") ∷ text_run (codes ".") ∷ []
unfolding inline
two_runs = refl

-- an empty pair and an open dollar sign are text
no_math : split_inline_math (codes "$$ 5$") ≡ text_run (codes "$") ∷ math_run (codes " 5") ∷ []
unfolding inline
no_math = refl

split_inline_math-IsSplitInto_example :
    IsSplitInto (codes "Let $x$.") (split_inline_math (codes "Let $x$."))
split_inline_math-IsSplitInto_example = split_inline_math-IsSplitInto (codes "Let $x$.")

flat :
    flatten_render_blocks (
      paragraph (text_run (codes "a") ∷ [])
      ∷ image (codes "m")
      ∷ table ((codes "b" ∷ codes "c" ∷ []) ∷ []) none
      ∷ [])
    ≡ 97 ∷ 10 ∷ 10 ∷ 98 ∷ 9 ∷ 99 ∷ []
unfolding inline
flat = refl
