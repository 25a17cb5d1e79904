-- ===== src/Study/Excerpts.antt =====
-- src/study/excerpt_blocks.py, on blocks that are render blocks already, and a budget that is not
-- negative.
mod Flattened
mod Kept
mod Budget
mod Tests
use lexicon_revision.Prelude.{
  ℕ, ◌+◌, nat_eq, ltb, Text, length, is_empty, not, Bool, true, false, ◌||◌, ◌&&◌, Option, none,
  some, List, [], ◌∷◌, ◌++◌, if◌then◌else◌,
}
use lexicon_revision.Rendering.{RenderBlock, paragraph, flatten_render_blocks}

-- `_block_type(block) == "paragraph"`
unfoldable pub is_paragraph : RenderBlock → Bool
is_paragraph (paragraph runs) = true
is_paragraph _ = false

unfoldable pub any_paragraph : List RenderBlock → Bool
any_paragraph [] = false
any_paragraph (block ∷ blocks) = is_paragraph block || any_paragraph blocks

-- `_candidate_flattened_length`
unfoldable pub candidate_flattened_length : ℕ → Text → ℕ
candidate_flattened_length current_chars [] = current_chars
candidate_flattened_length current_chars (c ∷ text) =
    if nat_eq current_chars 0 then length (c ∷ text) else current_chars + 2 + length (c ∷ text)

pub record Selection : Type 0 where
  pub selected : List RenderBlock
  pub included_paragraph : Bool
  pub flattened_chars : ℕ

-- the body of `if candidate_chars > budget_chars`: what the loop leaves with `break`, or none where
-- it returns the first block
unfoldable pub over_budget : Bool → RenderBlock → Selection → Option Selection
over_budget has_paragraph block s =
    let s' : Selection =
      if is_paragraph block && not s.included_paragraph
      then record s { selected = s.selected ++ block ∷ []; included_paragraph = true }
      else s in
    if not (is_empty s'.selected) || has_paragraph then some s' else none

unfoldable pub within_budget : RenderBlock → ℕ → Selection → Selection
within_budget block candidate_chars s = record {
  selected = s.selected ++ block ∷ [];
  included_paragraph = s.included_paragraph || is_paragraph block;
  flattened_chars = candidate_chars;
}

-- the loop over the blocks that are left
unfoldable pub select_blocks : ℕ → Bool → List RenderBlock → Selection → Option Selection
select_blocks budget_chars has_paragraph [] s = some s
select_blocks budget_chars has_paragraph (block ∷ blocks) s =
    let candidate_chars : ℕ =
      candidate_flattened_length s.flattened_chars (flatten_render_blocks (block ∷ [])) in
    let rest =
      select_blocks budget_chars has_paragraph blocks (within_budget block candidate_chars s) in
    if ltb budget_chars candidate_chars then over_budget has_paragraph block s else rest

-- `next((block for block in blocks if …), None)`
unfoldable pub first_paragraph : List RenderBlock → Option RenderBlock
first_paragraph [] = none
first_paragraph (block ∷ blocks) =
    let rest = first_paragraph blocks in if is_paragraph block then some block else rest

-- what follows the loop; `first` is `blocks[0]`
unfoldable pub with_paragraph :
    RenderBlock → Option RenderBlock → List RenderBlock → List RenderBlock
with_paragraph first (some block) selected = selected ++ block ∷ []
with_paragraph first none selected = first ∷ []

unfoldable pub finish : RenderBlock → List RenderBlock → Option Selection → List RenderBlock
finish first blocks none = first ∷ []
finish first blocks (some s) =
    if not (is_empty s.selected) && (s.included_paragraph || not (any_paragraph blocks))
    then s.selected
    else with_paragraph first (first_paragraph blocks) s.selected

abbrev pub nothing_selected : Selection
nothing_selected = record { selected = []; included_paragraph = false; flattened_chars = 0 }

unfoldable pub truncate_excerpt_blocks : List RenderBlock → ℕ → List RenderBlock
truncate_excerpt_blocks [] budget_chars = []
truncate_excerpt_blocks (first ∷ blocks) budget_chars =
    finish first (first ∷ blocks) (
      select_blocks budget_chars (any_paragraph (first ∷ blocks)) (first ∷ blocks) nothing_selected)
