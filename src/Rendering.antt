-- ===== src/Rendering.antt =====
-- src/rendering/blocks.py: render blocks, inline math, and the flat text of blocks.
pub mod Inline
mod Tests
use lexicon_revision.Prelude.{
  ℕ, zero, suc, nat_eq, Text, codes, length, filter, map, join, is_empty, not, Bool, true, false,
  Option, none, some, List, [], ◌∷◌, ◌++◌, if◌then◌else◌,
}

pub data InlineRun : Type 0 where
  text_run math_run : Text → InlineRun

pub data ListMarker : Type 0 where
  bullet ordered plain : ListMarker

pub data RenderBlock : Type 0 where
  paragraph : List InlineRun → RenderBlock
  list_block : ListMarker → List (List InlineRun) → RenderBlock
  equation : Text → RenderBlock
  code_block : Text → Option Text → RenderBlock
  table : List (List Text) → Option Text → RenderBlock
  image : Text → RenderBlock

unfoldable pub with_char : ℕ → Option (Text × Text) → Option (Text × Text)
with_char c none = none
with_char c (some (latex, behind)) = some (c ∷ latex, behind)

-- `[^$\n]*?\$` from the start of a text: what stands before the dollar sign and what behind it
unfoldable pub up_to_dollar : Text → Option (Text × Text)
up_to_dollar [] = none
up_to_dollar (c ∷ s) =
    let rest = up_to_dollar s in
    if nat_eq c 36 then some ([], s) else (if nat_eq c 10 then none else with_char c rest)

unfoldable pub nonempty_math : Option (Text × Text) → Option (Text × Text)
nonempty_math none = none
nonempty_math (some ([], behind)) = none
nonempty_math (some (c ∷ latex, behind)) = some (c ∷ latex, behind)

-- the match of `INLINE_MATH_RE` at `c` before `s`: its group and what stands behind it
unfoldable pub match_at : ℕ → Text → Option (Text × Text)
match_at c s = if nat_eq c 36 then nonempty_math (up_to_dollar s) else none

-- `if match.start() > position: runs.append(TextRun(...))`
unfoldable pub with_text : Text → List InlineRun → List InlineRun
with_text [] runs = runs
with_text (c ∷ s) runs = text_run (c ∷ s) ∷ runs

-- The runs of `s`, where `pending` is the text since the last match; the number bounds the steps.
unfoldable pub runs_from : ℕ → Text → Text → List InlineRun
runs_from zero pending s = []
runs_from (suc n) pending [] = with_text pending []
runs_from (suc n) pending (c ∷ s) = elim (match_at c s) [
  | none ↦ runs_from n (pending ++ c ∷ []) s
  | some r ↦ with_text pending (math_run r.0 ∷ runs_from n [] r.1)
]

unfoldable pub split_inline_math : Text → List InlineRun
split_inline_math text = runs_from (suc (length text)) [] text

unfoldable pub flatten_run : InlineRun → Text
flatten_run (text_run text) = text
flatten_run (math_run latex) = codes "$" ++ (latex ++ codes "$")

-- `_flatten_runs`
unfoldable pub flatten_runs : List InlineRun → Text
flatten_runs [] = []
flatten_runs (run ∷ runs) = flatten_run run ++ flatten_runs runs

-- `_flatten_block`
unfoldable pub flatten_block : RenderBlock → Text
flatten_block (paragraph runs) = flatten_runs runs
flatten_block (list_block marker items) = join (10 ∷ []) (map flatten_runs items)
flatten_block (equation latex) = latex
flatten_block (code_block code language) = code
flatten_block (table rows media_id) = join (10 ∷ []) (map (join (9 ∷ [])) rows)
flatten_block (image media_id) = []

abbrev pub blank_line : Text
blank_line = 10 ∷ 10 ∷ []

unfoldable pub flatten_render_blocks : List RenderBlock → Text
flatten_render_blocks blocks =
    join blank_line (filter (λ part. not (is_empty part)) (map flatten_block blocks))
