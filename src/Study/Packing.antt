-- ===== src/Study/Packing.antt =====
-- src/study/packing.py: which retrieved chunks go into the prompt, within a budget of tokens.
-- A token estimator is a function; `HeuristicTokenEstimator` is `heuristic_estimate`. Budgets are
-- natural numbers, and `max(1, a - b)` is the same with the subtraction that stops at 0.
pub mod Dedupe
pub mod Budget
pub mod Truncation
mod Tests
use lexicon_revision.Prelude.{
  ℕ, ◌+◌, ◌-◌, ◌*◌, ◌/◌, max, Text, text_HasEq, codes, words, join, rstrip, contains, ◌==◌, true,
  false, not, ◌&&◌, Option, none, some, List, [], ◌∷◌, ◌++◌, map, filter, is_empty, length, take,
  ltb, if◌then◌else◌,
}
use lexicon_revision.Study.Models.{
  ChunkLevel, question, sub_question, RankedChunk, PackedChunk, PackingStatus, PackingResult,
}

abbrev pub truncation_marker : Text
truncation_marker = codes "[...truncated for context budget]"

pub heuristic_estimate : Text → ℕ
heuristic_estimate text = max 1 (length text / 4)

-- `{chunk.chunk_id: chunk for chunk in chunks}.get(id)`: the last chunk of an id stands.
pub by_id : List RankedChunk → Text → Option RankedChunk
by_id [] id = none
by_id (c ∷ cs) id = elim (by_id cs id) [
  | some last ↦ some last
  | none ↦ if c.chunk_id == id then some c else none
]

-- The loop body of `dedupe_parent_child`: the ids that it adds to `removed`.
pub drop_weaker : RankedChunk → Option RankedChunk → List Text
drop_weaker chunk none = []
drop_weaker chunk (some parent) =
    if ltb parent.score chunk.score then parent.chunk_id ∷ [] else chunk.chunk_id ∷ []

pub parent_of : ChunkLevel → Option Text → Option Text
parent_of question parent_id = none
parent_of sub_question parent_id = parent_id

pub look_up_parent : List RankedChunk → Option Text → Option RankedChunk
look_up_parent chunks none = none
look_up_parent chunks (some parent_id) = by_id chunks parent_id

pub removed_by : List RankedChunk → RankedChunk → List Text
removed_by chunks chunk =
    drop_weaker chunk (look_up_parent chunks (parent_of chunk.chunk_level chunk.parent_chunk_id))

pub removed_ids : List RankedChunk → List RankedChunk → List Text
removed_ids chunks [] = []
removed_ids chunks (c ∷ rest) = removed_by chunks c ++ removed_ids chunks rest

unfoldable pub dedupe_parent_child : List RankedChunk → List RankedChunk
dedupe_parent_child chunks =
    filter (λ c. not (contains (removed_ids chunks chunks) c.chunk_id)) chunks

-- The rest takes the estimator.
module _ (estimate : Text → ℕ) where
  -- the `for word in words` loop of `_truncate_to_token_budget`, which breaks when the next word
  -- passes the target
  pub take_words : ℕ → List Text → List Text → List Text
  take_words target current [] = current
  take_words target current (word ∷ rest) =
      let longer = take_words target (current ++ word ∷ []) rest in
      if ltb target (estimate (join (codes " ") (current ++ word ∷ []))) then current else longer

  pub truncate_to_token_budget : Text → ℕ → Text
  truncate_to_token_budget text max_tokens =
      let target = max 1 (max_tokens - estimate truncation_marker) in
      let current = take_words target [] (words text) in
      let shown = if is_empty current then take (max 1 (target * 4)) text ∷ [] else current in
      rstrip (join (codes " ") shown) ++ (codes " " ++ truncation_marker)

  pub record PackLoop : Type 0 where
    pub packed : List PackedChunk
    pub omitted : List Text
    pub truncated : List Text
    pub used_tokens : ℕ

  -- the part of the loop body that fixes a chunk's text and its estimate
  pub candidate : ℕ → RankedChunk → PackedChunk
  candidate max_single_chunk_tokens chunk =
      if ltb max_single_chunk_tokens (estimate chunk.text)
      then (let text = truncate_to_token_budget chunk.text max_single_chunk_tokens in
          record { chunk = chunk; text = text; estimated_tokens = estimate text; truncated = true })
      else record {
        chunk = chunk;
        text = chunk.text;
        estimated_tokens = estimate chunk.text;
        truncated = false;
      }

  pub place : ℕ → PackedChunk → PackLoop → PackLoop
  place budget_tokens c s =
      let truncated = if c.truncated then s.truncated ++ c.chunk.chunk_id ∷ [] else s.truncated in
      if ltb budget_tokens (s.used_tokens + c.estimated_tokens)
      then record s { omitted = s.omitted ++ c.chunk.chunk_id ∷ []; truncated = truncated }
      else record s {
        packed = s.packed ++ c ∷ [];
        truncated = truncated;
        used_tokens = s.used_tokens + c.estimated_tokens;
      }

  pub pack_loop : ℕ → ℕ → List RankedChunk → PackLoop → PackLoop
  pack_loop budget_tokens max_single_chunk_tokens [] s = s
  pack_loop budget_tokens max_single_chunk_tokens (chunk ∷ rest) s =
      pack_loop budget_tokens max_single_chunk_tokens rest
        (place budget_tokens (candidate max_single_chunk_tokens chunk) s)

  -- the part of `pack_chunks` behind its loop
  pub pack_result : List RankedChunk → PackLoop → PackingResult
  pack_result chunks s =
      if is_empty s.packed && not (is_empty chunks)
      then record {
        chunks = [];
        omitted_chunk_ids = map (λ c. c.chunk_id) chunks;
        truncated_chunk_ids = s.truncated;
        status = PackingStatus.context_pack_failed;
      }
      else record {
        chunks = s.packed;
        omitted_chunk_ids = s.omitted;
        truncated_chunk_ids = s.truncated;
        status = PackingStatus.ok;
      }

  pub pack_chunks : List RankedChunk → ℕ → ℕ → PackingResult
  pack_chunks chunks budget_tokens max_single_chunk_tokens = pack_result chunks (
      pack_loop budget_tokens max_single_chunk_tokens chunks
        (record { packed = []; omitted = []; truncated = []; used_tokens = 0 }))
