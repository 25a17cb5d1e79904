-- ===== src/Study/Graph/Reflection.antt =====
-- The nodes `grade` and `reflect` of src/study/graph.py.
use lexicon_revision.Prelude.{
  ℕ, ◌+◌, ◌-◌, min, leb, nat_eq, Text, text_HasEq, codes, strip, words, join, take, map, filter,
  contains, ◌==◌, Bool, true, false, not, ◌&&◌, ◌||◌, Option, none, some, List, [], ◌∷◌, ◌++◌,
  is_empty, Result, ok, err, if◌then◌else◌,
}
use lexicon_revision.Study.Models.{AnswerStatus}
use lexicon_revision.Study.Requests.{
  QueryPlan, SearchResult, RetrievalStatus, RetrievalMetadata, Schema, GenerationRequest,
  GenerationResult, RelevanceGradingDraft, QueryReformulationDraft,
}
use lexicon_revision.Study.Service.{Deps, CallFailure, ranked_chunk}
use lexicon_revision.Study.Service.Responses.{empty_retrieval, empty_response}
use lexicon_revision.Study.Graph.State.{StudyGraphState, World, unexpected, Step, call, read_clock}
use lexicon_revision.Study.Graph.Retrieval.{demand, finish}

abbrev pub reflection_abstain_limitation : Text
reflection_abstain_limitation =
    codes "No retrieved questions were sufficiently relevant to your query. "
    ++ codes "Try rephrasing or broadening your topic."

-- `state.requery_semantic[0] if state.requery_semantic else ""`
unfoldable pub reformulated_query_of : Option (List Text) → Text
reformulated_query_of none = []
reformulated_query_of (some []) = []
reformulated_query_of (some (query ∷ _)) = query

-- `a or b`
unfoldable pub text_or : Text → Text → Text
text_or a b = if is_empty a then b else a

-- whether `remaining`, the deadline less the time, is at least `least`; without a deadline it is
unfoldable pub has_remaining : Option ℕ → ℕ → ℕ → Bool
has_remaining none now least = true
has_remaining (some deadline) now least = leb (now + least) deadline

-- `min(step_timeout, max(remaining, 0))`
unfoldable pub step_cap_of : Option ℕ → ℕ → ℕ → ℕ
step_cap_of none now step_timeout = step_timeout
step_cap_of (some deadline) now step_timeout = min step_timeout (deadline - now)

unfoldable pub chunk_ids : List SearchResult → List Text
chunk_ids results = map (λ (r : SearchResult). r.chunk_id) results

-- the results that the grader accepted
unfoldable pub accepted_results : List SearchResult → List Text → List SearchResult
accepted_results results accepted =
    filter (λ (r : SearchResult). contains accepted r.chunk_id) results

-- whether every result was retrieved before
unfoldable pub is_old : List Text → List SearchResult → Bool
is_old seen [] = true
is_old seen (r ∷ rs) = contains seen r.chunk_id && is_old seen rs

unfoldable pub accept_all : StudyGraphState → List SearchResult → StudyGraphState
accept_all s results = record s {
  graded_chunks = some (map ranked_chunk results);
  reflection_graded = false;
}

module _ (deps : Deps) where
  -- `_remaining_budget`: the clock is read if there is a deadline
  unfoldable pub now_for : Option ℕ → World → ℕ × World
  now_for none w = (0, w)
  now_for (some deadline) w = read_clock deps w

  unfoldable pub schema_if_supported : Schema → Option Schema
  schema_if_supported schema = if deps.json_schema_output then some schema else none

  -- the `RetrievalMetadata` of `_reflection_abstain`
  unfoldable pub abstain_retrieval : StudyGraphState → Text → RetrievalMetadata
  abstain_retrieval s critique =
      record (empty_retrieval deps RetrievalStatus.low_relevance s.request s.filters_applied) {
        reflection_graded = true;
        requery_attempted = not (nat_eq s.requery_count 0);
        graded_chunk_count = 0;
        reflection_critique = text_or critique s.critique;
        reflection_reformulated_query = reformulated_query_of s.requery_semantic;
      }

  unfoldable pub abstain : Text → StudyGraphState → Step StudyGraphState
  abstain critique s = demand s.planning_metadata (λ planning. finish s (
      empty_response deps s.request s.request_id AnswerStatus.insufficient_evidence
        (reflection_abstain_limitation ∷ []) (abstain_retrieval s critique) planning))

  unfoldable pub grader_request : StudyGraphState → List SearchResult → ℕ → GenerationRequest
  grader_request s results step_cap = record {
    messages = deps.grading_prompt s.request.query (
        map (λ (r : SearchResult). (r.chunk_id, take deps.settings.grader_excerpt_chars r.text))
          results);
    response_schema = schema_if_supported Schema.relevance_grading_draft;
    max_tokens = none;
    timeout = step_cap;
  }

  -- the part of `_grade_node` behind the grader's draft
  unfoldable pub judge :
      StudyGraphState → List SearchResult → RelevanceGradingDraft → Step StudyGraphState
  judge s results draft w = elim (accepted_results results draft.accepted_chunk_ids) [
    | r ∷ rs ↦ (
      ok (record s { graded_chunks = some (map ranked_chunk (r ∷ rs)); reflection_graded = true }),
      w,
    )
    | [] ↦
        (let (now, v) = now_for s.deadline_monotonic w in
          if nat_eq s.requery_count 0
            && has_remaining s.deadline_monotonic now deps.settings.requery_min_remaining
          then (
            ok (record s {
              critique =
                  text_or (strip draft.critique)
                    (codes "Retrieved chunks did not address the query.");
              requery_count = 1;
              reflection_graded = true;
              seen_chunk_ids = chunk_ids results;
            }),
            v,
          )
          else abstain (strip draft.critique) s v)
  ]

  -- what the grader's answer leads to; whatever failed, all chunks are accepted
  unfoldable pub grade_outcome :
      StudyGraphState
      → List SearchResult
      → Result CallFailure GenerationResult
      → Step StudyGraphState
  grade_outcome s results (err CallFailure.unexpected) w = (err unexpected, w)
  grade_outcome s results (err _) w = (ok (accept_all s results), w)
  grade_outcome s results (ok answer) w = elim (deps.parse_grading answer.raw_content) [
    | none ↦ (ok (accept_all s results), w)
    | some draft ↦ judge s results draft w
  ]

  unfoldable pub ask_grader : StudyGraphState → List SearchResult → ℕ → Step StudyGraphState
  ask_grader s results now w =
      let (answer, v) =
        call deps
          (grader_request s results
            (step_cap_of s.deadline_monotonic now deps.settings.step_timeout))
          w in
      grade_outcome s results answer v

  unfoldable pub grade_node : StudyGraphState → Step StudyGraphState
  grade_node s = demand s.search_response (λ results w.
      if not deps.settings.reflection_enabled
      then (ok (accept_all s results), w)
      else (let (now, v) = now_for s.deadline_monotonic w in
          if nat_eq s.requery_count 1 && is_old s.seen_chunk_ids results
          then abstain [] s v
          else ask_grader s results now v))

  unfoldable pub reflect_request : StudyGraphState → QueryPlan → ℕ → GenerationRequest
  reflect_request s plan step_cap = record {
    messages = deps.reformulation_prompt plan.original_query s.critique;
    response_schema = schema_if_supported Schema.query_reformulation_draft;
    max_tokens = none;
    timeout = step_cap;
  }

  -- `" ".join(draft.reformulated_query.split()[:_MAX_REQUERY_WORDS])`
  unfoldable pub reformulated : QueryReformulationDraft → Text
  reformulated draft = join (codes " ") (take 40 (words draft.reformulated_query))

  unfoldable pub is_declined : QueryPlan → Text → Bool
  is_declined plan query =
      is_empty query || deps.lower (strip query) == deps.lower (strip plan.original_query)

  unfoldable pub reflect_outcome :
      StudyGraphState → QueryPlan → Result CallFailure GenerationResult → Step StudyGraphState
  reflect_outcome s plan (err CallFailure.unexpected) w = (err unexpected, w)
  reflect_outcome s plan (err _) w = abstain [] s w
  reflect_outcome s plan (ok answer) w = elim (deps.parse_reformulation answer.raw_content) [
    | none ↦ abstain [] s w
    | some draft ↦
        if is_declined plan (reformulated draft)
        then abstain [] s w
        else (ok (record s { requery_semantic = some (reformulated draft ∷ []) }), w)
  ]

  unfoldable pub reflect_node : StudyGraphState → Step StudyGraphState
  reflect_node s = demand s.plan (λ plan w.
      let (now, v) = now_for s.deadline_monotonic w in
      if not (has_remaining s.deadline_monotonic now deps.settings.requery_min_remaining)
      then abstain [] s v
      else (let (answer, u) =
            call deps
              (reflect_request s plan
                (step_cap_of s.deadline_monotonic now deps.settings.step_timeout))
              v in
          reflect_outcome s plan answer u))
