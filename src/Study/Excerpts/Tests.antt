-- ===== src/Study/Excerpts/Tests.antt =====
-- An equation, and two paragraphs.
use lexicon_revision.Prelude.{codes, filter, join, [], ◌∷◌, ◌≡◌, refl}
use lexicon_revision.Rendering.{
  RenderBlock, text_run, paragraph, equation, image, flatten_run, flatten_runs, flatten_block,
  flatten_render_blocks,
}
use lexicon_revision.Study.Excerpts.{
  is_paragraph, any_paragraph, candidate_flattened_length, over_budget, within_budget,
  select_blocks, first_paragraph, with_paragraph, finish, truncate_excerpt_blocks,
}
use lexicon_revision.Study.Excerpts.Kept.{IsExcerpt}
use lexicon_revision.Study.Excerpts.Budget.{truncate_excerpt_blocks-IsExcerpt}

excerpts : Unit {0}
unfolding filter join flatten_run flatten_runs flatten_block flatten_render_blocks is_paragraph
    any_paragraph candidate_flattened_length over_budget within_budget select_blocks first_paragraph
    with_paragraph finish truncate_excerpt_blocks
excerpts = tt

abbrev sum : RenderBlock
sum = equation (codes "a+b")

abbrev long : RenderBlock
long = paragraph (text_run (codes "a long paragraph") ∷ [])

abbrev short : RenderBlock
short = paragraph (text_run (codes "short") ∷ [])

-- three characters, two newlines and five characters
both : truncate_excerpt_blocks (sum ∷ short ∷ long ∷ []) 10 ≡ sum ∷ short ∷ []
unfolding excerpts
both = refl

-- the first paragraph is returned although it does not fit
over : truncate_excerpt_blocks (sum ∷ long ∷ short ∷ []) 10 ≡ sum ∷ long ∷ []
unfolding excerpts
over = refl

pictures : truncate_excerpt_blocks (image (codes "m") ∷ sum ∷ []) 2 ≡ image (codes "m") ∷ []
unfolding excerpts
pictures = refl

truncate_excerpt_blocks-IsExcerpt_example :
    IsExcerpt 10 sum
      (sum ∷ long ∷ short ∷ [])
      (truncate_excerpt_blocks (sum ∷ long ∷ short ∷ []) 10)
truncate_excerpt_blocks-IsExcerpt_example =
    truncate_excerpt_blocks-IsExcerpt sum (long ∷ short ∷ []) 10
