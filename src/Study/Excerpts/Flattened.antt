-- ===== src/Study/Excerpts/Flattened.antt =====
-- The length that src/study/excerpt_blocks.py counts, and that of the flat text.
use lexicon_revision.Prelude.{
  ◌+◌, ◌≤◌, Text, length, length-append, filter, filter-append, map, map-append, append-nil,
  is_empty, not, join, All, Bool, List, [], ◌∷◌, ◌++◌, ◌≡◌, ◌≢◌, refl, arith,
}
use lexicon_revision.Rendering.{RenderBlock, flatten_block, flatten_render_blocks, blank_line}
use lexicon_revision.Study.Excerpts.{candidate_flattened_length}

abbrev is_part : Text → Bool
is_part part = not (is_empty part)

-- the parts that `flatten_render_blocks` joins
abbrev parts_of : List RenderBlock → List Text
parts_of blocks = filter is_part (map flatten_block blocks)

length-join-snoc :
    (part : Text) (p : Text) (ps : List Text)
    → length (join blank_line ((p ∷ ps) ++ part ∷ []))
      ≡ length (join blank_line (p ∷ ps)) + 2 + length part
unfolding join
length-join-snoc part p [] = omega (arith, length-append p (blank_line ++ part))
length-join-snoc part p (q ∷ ps) = omega (
  arith,
  length-append p (blank_line ++ join blank_line ((q ∷ ps) ++ part ∷ [])),
  length-append p (blank_line ++ join blank_line (q ∷ ps)),
  length-join-snoc part q ps,
)

length-join_pos :
    (p : Text) (ps : List Text) → All (λ q. q ≢ []) (p ∷ ps) → 1 ≤ length (join blank_line (p ∷ ps))
unfolding join
length-join_pos [] ps (h, hs) = absurd (h refl)
length-join_pos (c ∷ p) [] h = omega arith
length-join_pos (c ∷ p) (q ∷ ps) h = omega arith

All-filter_part : (ps : List Text) → All (λ q. q ≢ []) (filter is_part ps)
unfolding filter
All-filter_part [] = tt
All-filter_part ([] ∷ ps) = All-filter_part ps
All-filter_part ((c ∷ p) ∷ ps) = ((λ e. cc e), All-filter_part ps)

-- one more part, as the code counts it
counted :
    (part : Text) (ps : List Text)
    → All (λ q. q ≢ []) ps
    → length (join blank_line (ps ++ filter is_part (part ∷ [])))
      ≡ candidate_flattened_length (length (join blank_line ps)) part
unfolding candidate_flattened_length filter join
counted [] ps h = rw (append-nil ps) refl
counted (c ∷ part) [] h = refl
counted (c ∷ part) (p ∷ ps) h =
    ground (arith, length-join-snoc (c ∷ part) p ps, length-join_pos p ps h)

single : (part : Text) → join blank_line (filter is_part (part ∷ [])) ≡ part
unfolding filter join
single [] = refl
single (c ∷ part) = refl

-- The count of the code after one more block is the length of the flat text with that block.
pub length-flatten-snoc :
    (blocks : List RenderBlock) (block : RenderBlock)
    → length (flatten_render_blocks (blocks ++ block ∷ []))
      ≡ candidate_flattened_length
          (length (flatten_render_blocks blocks))
          (flatten_render_blocks (block ∷ []))
unfolding flatten_render_blocks
length-flatten-snoc blocks block =
    rw
      (
        map-append flatten_block blocks (block ∷ []),
        filter-append is_part (map flatten_block blocks) (flatten_block block ∷ []),
        single (flatten_block block),
      )
      (counted (flatten_block block) (parts_of blocks) (All-filter_part (map flatten_block blocks)))

pub length-flatten_nil : length (flatten_render_blocks []) ≡ 0
unfolding flatten_render_blocks filter join
length-flatten_nil = refl
