-- ===== src/Study/Graph/Naming.antt =====
-- When the responses of src/study/service.py are valid for pydantic: providers give names, and chunks
-- have ids.
pub mod Generation
use lexicon_revision.Prelude.{
  ℕ, Text, is_empty, true, false, All, All-IsIn, Option, none, some, Option-cases, List, [], ◌∷◌,
  ok, ◌≡◌, refl, inl, inr,
}
use lexicon_revision.Study.Models.{AnswerStatus, ErrorCategory, ValidationResult, StudyAnswerDraft}
use lexicon_revision.Study.Requests.{
  FilterCondition, StudyRequest, QueryPlan, PlanningMetadata, SearchResult, RetrievalMetadata,
  GenerationRequest, GenerationResult,
}
use lexicon_revision.Study.Service.{Deps, study_source, last_by_id, sources_of, fallback_sources}
use lexicon_revision.Study.Service.Sources.{result_by_id_sound}
use lexicon_revision.Study.Service.Responses.{
  is_valid_generation, are_valid_sources, is_valid_response, generation_metadata, empty_response,
  direct_response, generation_failed_response, success_response,
}
use lexicon_revision.Study.Graph.State.{StudyGraphState}

abbrev pub OnSome : {A : Type 0} → (A → Type 0) → Option A → Type 0
OnSome P none = Unit
OnSome P (some a) = P a

abbrev pub HasName : GenerationResult → Type 0
HasName r = (is_empty r.provider ≡ false) × (is_empty r.model ≡ false)

abbrev pub HasIds : List SearchResult → Type 0
HasIds results = All (λ (r : SearchResult). is_empty r.chunk_id ≡ false) results

-- The settings and each result of the provider have names, and each chunk found has an id.
pub record IsNamed (deps : Deps) : Type 0 where
  pub provider : is_empty deps.settings.provider ≡ false
  pub model : is_empty deps.settings.model ≡ false
  pub prompt_version : is_empty deps.settings.prompt_version ≡ false
  pub generated :
      (calls : ℕ) (request : GenerationRequest) (result : GenerationResult)
      → deps.generate calls request ≡ ok result
      → HasName result
  pub found :
      (searches : ℕ) (query collection : Text) (filters : Option (List FilterCondition)) (limit : ℕ)
      (results : List SearchResult)
      → deps.search searches query collection filters limit ≡ ok results
      → HasIds results

-- what holds of a state then
abbrev pub Facts : StudyGraphState → Type 0
Facts s =
    (is_empty s.request_id ≡ false)
    × OnSome HasIds s.search_response
    × OnSome HasName s.generation_result

result_by_id-HasId :
    (results : List SearchResult) (id : Text) (r : SearchResult)
    → HasIds results
    → last_by_id (λ (r : SearchResult). r.chunk_id) (λ r. r) results id ≡ some r
    → is_empty r.chunk_id ≡ false
result_by_id-HasId results id r h e =
    let (m, q) = result_by_id_sound results id r e in
    All-IsIn (λ (r : SearchResult). is_empty r.chunk_id ≡ false) r results h m

sources_of-valid :
    (results : List SearchResult) (why : Text → Option Text) (ids : List Text)
    → HasIds results
    → are_valid_sources (sources_of results why ids) ≡ true
unfolding sources_of are_valid_sources study_source
sources_of-valid results why [] h = refl
sources_of-valid results why (id ∷ ids) h =
    elim (Option-cases (last_by_id (λ (r : SearchResult). r.chunk_id) (λ r. r) results id)) [
      | inl e ↦ rw (sources_of, e) (sources_of-valid results why ids h)
      | inr (r, e) ↦
          rw
            (sources_of, e, result_by_id-HasId results id r h e, sources_of-valid results why ids h)
            refl
    ]

module _ (deps : Deps) (names : IsNamed deps) where
  generation_metadata-valid :
      (attempts drops : ℕ) (category : Option ErrorCategory) (result : Option GenerationResult)
      → OnSome HasName result
      → is_valid_generation (generation_metadata deps attempts drops category result) ≡ true
  unfolding generation_metadata is_valid_generation
  generation_metadata-valid attempts drops category none h =
      rw (names.provider, names.model, names.prompt_version) refl
  generation_metadata-valid attempts drops category (some result) (p, m) =
      rw (p, m, names.prompt_version) refl

  pub empty_response-valid :
      (request : StudyRequest) (request_id : Text) (status : AnswerStatus) (limitations : List Text)
      (retrieval : RetrievalMetadata) (planning : PlanningMetadata)
      → is_empty request_id ≡ false
      → is_valid_response
          (empty_response deps request request_id status limitations retrieval planning)
        ≡ true
  unfolding empty_response is_valid_response are_valid_sources
  empty_response-valid request request_id status limitations retrieval planning h =
      rw (h, generation_metadata-valid 0 0 none none tt) refl

  pub direct_response-valid :
      (request : StudyRequest) (request_id : Text) (plan : QueryPlan) (planning : PlanningMetadata)
      → is_empty request_id ≡ false
      → is_valid_response (direct_response deps request request_id plan planning) ≡ true
  unfolding direct_response is_valid_response are_valid_sources
  direct_response-valid request request_id plan planning h =
      rw (h, generation_metadata-valid 0 0 none none tt) refl

  pub generation_failed_response-valid :
      (request : StudyRequest) (request_id : Text) (results : List SearchResult)
      (retrieval : RetrievalMetadata) (planning : PlanningMetadata) (category : ErrorCategory)
      (attempts drops : ℕ) (result : Option GenerationResult)
      → is_empty request_id ≡ false
      → HasIds results
      → OnSome HasName result
      → is_valid_response (
          generation_failed_response deps request request_id results retrieval planning category
            attempts drops result)
        ≡ true
  unfolding generation_failed_response is_valid_response fallback_sources
  generation_failed_response-valid request request_id results retrieval planning category attempts
        drops result h ids n =
      rw
        (
          h,
          generation_metadata-valid attempts drops (some category) result n,
          sources_of-valid results _ _ ids,
        )
        refl

  pub success_response-valid :
      (request : StudyRequest) (request_id : Text) (results : List SearchResult)
      (retrieval : RetrievalMetadata) (planning : PlanningMetadata) (result : GenerationResult)
      (validation : ValidationResult) (draft : StudyAnswerDraft) (attempts : ℕ)
      → is_empty request_id ≡ false
      → HasIds results
      → HasName result
      → is_valid_response (
          success_response deps request request_id results retrieval planning result validation
            draft attempts)
        ≡ true
  unfolding success_response is_valid_response
  success_response-valid request request_id results retrieval planning result validation draft
        attempts h ids n =
      rw
        (
          h,
          generation_metadata-valid attempts validation.citation_drops none (some result) n,
          sources_of-valid results _ _ ids,
        )
        refl
