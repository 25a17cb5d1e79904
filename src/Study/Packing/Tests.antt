-- ===== src/Study/Packing/Tests.antt =====
-- Runs of the packing functions, and the theorems about them at an input.
use lexicon_revision.Prelude.{
  ◌+◌, ◌≤◌, max, Text, text_HasEq, text_eq, codes, is_space, words, words_from, join, rstrip,
  contains, distinct, distinct-IsNodup, filter, IsIn, IsNodup, All, ◌≡◌, ◌≢◌, refl, ◌↔◌, ◌⊎◌, inl,
  inr, true, none, some, List, [], ◌∷◌, map, arith,
}
use lexicon_revision.Study.Models.{question, sub_question, RankedChunk, PackingStatus}
use lexicon_revision.Study.Packing.{
  heuristic_estimate, by_id, drop_weaker, parent_of, look_up_parent, removed_by, removed_ids,
  dedupe_parent_child, take_words, truncate_to_token_budget, candidate, place, pack_loop,
  pack_result, pack_chunks,
}
use lexicon_revision.Study.Packing.Dedupe.{
  IsChildOf, IsOutdone, dedupe_parent_child-separates, dedupe_parent_child-drops,
  dedupe_parent_child-keeps_best,
}
use lexicon_revision.Study.Packing.Budget.{
  IsMaximalPacking, IsTooBig, pack_chunks-IsMaximalPacking, pack_failed_iff,
}
use lexicon_revision.Study.Packing.Truncation.{candidate-le}

packing : Unit {0}
unfolding heuristic_estimate by_id drop_weaker parent_of look_up_parent removed_by removed_ids
    dedupe_parent_child take_words truncate_to_token_budget candidate place pack_loop pack_result
    pack_chunks is_space words words_from join rstrip contains filter text_eq
packing = tt

-- a question with two parts, the second better than the question
abbrev whole : RankedChunk
whole = record {
  chunk_id = codes "q1";
  chunk_level = question;
  parent_chunk_id = none;
  text = codes "State and prove the theorem.";
  score = 5;
}

abbrev part_a : RankedChunk
part_a = record {
  chunk_id = codes "q1-a";
  chunk_level = sub_question;
  parent_chunk_id = some (codes "q1");
  text = codes "State it.";
  score = 4;
}

abbrev part_b : RankedChunk
part_b = record {
  chunk_id = codes "q1-b";
  chunk_level = sub_question;
  parent_chunk_id = some (codes "q1");
  text = codes "Prove it.";
  score = 9;
}

abbrev other : RankedChunk
other = record {
  chunk_id = codes "q2";
  chunk_level = question;
  parent_chunk_id = none;
  text = codes "Define a term.";
  score = 2;
}

abbrev retrieved : List RankedChunk
retrieved = part_b ∷ whole ∷ part_a ∷ other ∷ []

dedupe_retrieved : dedupe_parent_child retrieved ≡ part_b ∷ other ∷ []
unfolding packing
dedupe_retrieved = refl

part_b_stays : IsIn part_b (dedupe_parent_child retrieved)
part_b_stays = rw dedupe_retrieved (inl refl)

other_stays : IsIn other (dedupe_parent_child retrieved)
other_stays = rw dedupe_retrieved (inr (inl refl))

dedupe_parent_child-separates_example : part_b.parent_chunk_id ≢ some other.chunk_id
dedupe_parent_child-separates_example =
    dedupe_parent_child-separates retrieved part_b other part_b_stays other_stays refl

dedupe_parent_child-drops_example :
    IsIn whole (dedupe_parent_child retrieved) ⊎ IsOutdone retrieved (codes "q1")
dedupe_parent_child-drops_example = dedupe_parent_child-drops retrieved whole (inr (inl refl))

retrieved_distinct : IsNodup (map (λ c. c.chunk_id) retrieved)
unfolding distinct contains text_eq
retrieved_distinct = distinct-IsNodup {A = Text} (map (λ c. c.chunk_id) retrieved) refl

retrieved_questions : (c p : RankedChunk) → IsChildOf retrieved c p → p.chunk_level ≡ question
retrieved_questions c p h = ground arith

dedupe_parent_child-keeps_best_example :
    (r : RankedChunk) × IsIn r (dedupe_parent_child retrieved) × (5 ≤ r.score)
dedupe_parent_child-keeps_best_example =
    dedupe_parent_child-keeps_best retrieved retrieved_distinct retrieved_questions whole
      (inr (inl refl))

pack_chunks-IsMaximalPacking_example :
    IsMaximalPacking heuristic_estimate 8 20 retrieved
      (pack_chunks heuristic_estimate retrieved 8 20)
pack_chunks-IsMaximalPacking_example =
    pack_chunks-IsMaximalPacking heuristic_estimate 8 20 retrieved

pack_failed_iff_example :
    ((pack_chunks heuristic_estimate retrieved 1 20).status ≡ PackingStatus.context_pack_failed)
    ↔ ((retrieved ≢ []) × All (IsTooBig heuristic_estimate 1 20) retrieved)
pack_failed_iff_example = pack_failed_iff heuristic_estimate 1 20 retrieved

pack_some : (pack_chunks heuristic_estimate retrieved 7 20).omitted_chunk_ids ≡ codes "q1" ∷ []
unfolding packing
pack_some = refl

-- Words of five characters with a limit of 10 tokens: 11 are estimated.
abbrev long_text : Text
long_text = codes "aaaaa aaaaa aaaaa aaaaa aaaaa aaaaa aaaaa aaaaa"

one_token_over : heuristic_estimate (truncate_to_token_budget heuristic_estimate long_text 10) ≡ 11
unfolding packing
one_token_over = refl

candidate-le_example :
    ((candidate heuristic_estimate 10 (record whole { text = long_text })).estimated_tokens
      ≤ max 10 9 + 1)
    × (((candidate heuristic_estimate 10 (record whole { text = long_text })).truncated ≡ true)
        ⊎ ((candidate heuristic_estimate 10 (record whole { text = long_text })).estimated_tokens
            ≤ 10))
candidate-le_example = candidate-le 10 (record whole { text = long_text })
