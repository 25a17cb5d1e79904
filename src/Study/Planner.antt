-- ===== src/Study/Planner.antt =====
-- `_build_plan` of src/study/planning/planner.py, and `QueryPlanDraft` of planning/models.py.
pub mod Limits
pub mod Tests
use lexicon_revision.Prelude.{
  ℕ, ltb, nat_eq, Text, codes, strip, words, length, map, Bool, true, false, not, ◌&&◌, List, [],
  ◌∷◌, is_empty, Result, ok, err, ◌>>=◌, if◌then◌else◌,
}
use lexicon_revision.Study.Requests.{Intent, QueryPlan}

pub record QueryPlanDraft : Type 0 where
  pub semantic_queries : List Text
  pub intent : Intent
  pub generation_guidance : Text

-- `InvalidPlanError` with its message, and the `ValidationError` of a constructor
pub data InvalidPlan : Type 0 where
  invalid_plan : Text → InvalidPlan
  validation_error : InvalidPlan

unfoldable pub is_content_retrieval : Intent → Bool
is_content_retrieval Intent.content_retrieval = true
is_content_retrieval Intent.corpus_analytics = false
is_content_retrieval Intent.ambiguous = false
is_content_retrieval Intent.out_of_scope = false

-- the loop over the stripped queries, which returns them if it raises for none
unfoldable pub check_queries : List Text → Result InvalidPlan (List Text)
check_queries [] = ok []
check_queries (query ∷ queries) =
    let rest = check_queries queries in
    if is_empty query
    then err (invalid_plan (codes "semantic query must not be empty"))
    else if ltb 40 (length (words query))
    then err (invalid_plan (codes "semantic query exceeds 40 word limit"))
    else rest >>= λ (checked : List Text). ok (query ∷ checked)

-- The guidance is kept for the intent to retrieve content only.
unfoldable pub guidance_of : QueryPlanDraft → Text
guidance_of draft =
    if is_content_retrieval draft.intent then strip draft.generation_guidance else []

unfoldable pub check_guidance : Text → Result InvalidPlan Text
check_guidance guidance =
    if ltb 100 (length (words guidance))
    then err (invalid_plan (codes "generation_guidance exceeds 100 word limit"))
    else ok guidance

-- what the constructor `QueryPlan(…)` requires of its arguments
unfoldable pub is_valid_plan : QueryPlan → Bool
is_valid_plan plan =
    not (is_empty plan.planner_version)
    && not (is_empty plan.original_query)
    && nat_eq (length plan.semantic_queries) 1

unfoldable pub query_plan : QueryPlan → Result InvalidPlan QueryPlan
query_plan plan = if is_valid_plan plan then ok plan else err validation_error

unfoldable pub build_plan : QueryPlanDraft → Text → Text → Result InvalidPlan QueryPlan
build_plan draft raw_query planner_version =
    check_queries (map strip draft.semantic_queries) >>= λ (queries : List Text).
    check_guidance (guidance_of draft) >>= λ (guidance : Text). query_plan (record {
      planner_version = planner_version;
      original_query = raw_query;
      semantic_queries = queries;
      intent = draft.intent;
      generation_guidance = guidance;
    })
