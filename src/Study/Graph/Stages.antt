-- ===== src/Study/Graph/Stages.antt =====
-- What the state holds when a run of the study graph reaches a node, and what each node leaves.
pub mod Retrieving
pub mod Reflecting
pub mod Reformulating
pub mod Answering
use lexicon_revision.Prelude.{
  map, All, IsIn, Bool-cases, true, false, ℕ, zero, suc, Text, Option, none, some, List, [], ◌∷◌,
  ◌++◌, ◌≡◌, refl, ◌∙◌, ◌⊎◌, inl, inr, Result, ok, err, and_then,
}
use lexicon_revision.Study.Models.{RankedChunk, AnswerStatus, ErrorCategory}
use lexicon_revision.Study.Requests.{
  StudyRequest, QueryPlan, PlanningMetadata, GenerationResult, StudyResponse, StudySource,
  SearchResult, RetrievalMetadata,
}
use lexicon_revision.Study.Service.Responses.{
  supporting_ids, is_valid_response, direct_response, empty_response, generation_failed_response,
}
use lexicon_revision.Study.Service.Sources.{id_of}
use lexicon_revision.Study.Service.{Deps}
use lexicon_revision.Study.Graph.State.{
  StudyGraphState, World, GraphError, invalid_metadata_filter, unexpected, validation_error,
}
use lexicon_revision.Study.Graph.Retrieval.{finish}
use lexicon_revision.Study.Graph.Naming.{IsNamed, Facts}
use lexicon_revision.Study.Graph.Run.{Node, run_node, next, follow}

abbrev pub Has : {A : Type 0} → Option A → Type 0
Has {A = A} o = (a : A) × (o ≡ some a)

-- The exceptions that a collaborator may cause: an invalid filter, an unexpected one of the provider,
-- and pydantic's, which is raised only when a name or an id is empty.
abbrev pub IsExternal : Deps → GraphError → Type 0
IsExternal deps e =
    (e ≡ invalid_metadata_filter)
    ⊎ ((e ≡ unexpected) ⊎ ((e ≡ validation_error) × (IsNamed deps → ⊥)))

-- A node that left a state of this kind and logged nothing, or raised what a collaborator caused.
abbrev pub Leaves :
    Deps
    → (StudyGraphState → Type 0)
    → List StudyResponse
    → Result GraphError StudyGraphState × World
    → Type 0
Leaves deps Q logged (ok s, w) = Q s × (w.logged ≡ logged)
Leaves deps Q logged (err e, w) = IsExternal deps e × (w.logged ≡ logged)

-- the ids of the sources that a response shows
abbrev pub ids_of_sources : StudyResponse → List Text
ids_of_sources response = map (λ (s : StudySource). s.chunk_id) response.sources

-- every chunk that supports a pattern of the answer is among the sources
abbrev pub IsSupported : StudyResponse → Type 0
IsSupported response =
    All (λ id. IsIn id (ids_of_sources response)) (supporting_ids response.answer.patterns)

-- The run ended with a supported response, which was logged once, or with an exception and nothing
-- logged.
abbrev pub Answers : Deps → List StudyResponse → Result GraphError StudyGraphState × World → Type 0
Answers deps logged (ok s, w) =
    (response : StudyResponse) × (s.response ≡ some response)
    × IsSupported response
    × (w.logged ≡ logged ++ response ∷ [])
Answers deps logged (err e, w) = IsExternal deps e × (w.logged ≡ logged)

abbrev pub IsDone : StudyGraphState → Type 0
IsDone s = (response : StudyResponse) × (s.response ≡ some response) × IsSupported response

-- there is no response yet, and what has been retrieved and generated has its ids and names
abbrev pub IsOpen : Deps → StudyGraphState → Type 0
IsOpen deps s = (s.response ≡ none) × (IsNamed deps → Facts s)

abbrev pub IsPlanned : Deps → StudyGraphState → Type 0
IsPlanned deps s = IsOpen deps s × Has s.plan × Has s.planning_metadata

-- chunks that the grader left are among the results
abbrev pub IsWithin : Option (List RankedChunk) → List SearchResult → Type 0
IsWithin none results = Unit {0}
IsWithin (some graded) results =
    All (λ id. IsIn id (map id_of results)) (map (λ (c : RankedChunk). c.chunk_id) graded)

abbrev pub IsRetrieved : Deps → StudyGraphState → Type 0
IsRetrieved deps s =
    IsPlanned deps s
    × ((results : List SearchResult) × (s.search_response ≡ some results)
        × IsWithin s.graded_chunks results)

abbrev pub IsPacked : Deps → StudyGraphState → Type 0
IsPacked deps s =
    IsPlanned deps s
    × ((results : List SearchResult) × (retrieval : RetrievalMetadata) × (s.search_response
          ≡ some results)
        × (s.retrieval_metadata ≡ some retrieval)
        × All (λ id. IsIn id (map id_of results)) retrieval.context_chunk_ids
        × Has s.generation_request)

abbrev pub IsDrafted : Deps → StudyGraphState → Type 0
IsDrafted deps s = IsPacked deps s × Has s.draft × Has s.generation_result

-- the two passes of the loop: before a re-query, and behind it
abbrev pub IsFirstPass : StudyGraphState → Type 0
IsFirstPass s = (s.requery_semantic ≡ none) × (s.requery_count ≡ 0) × (s.graded_chunks ≡ none)

abbrev pub IsSecondPass : StudyGraphState → Type 0
IsSecondPass s =
    ((query : Text) × (s.requery_semantic ≡ some (query ∷ [])))
    × (s.requery_count ≡ 1)
    × (s.graded_chunks ≡ none)

-- the first pass retrieved nothing that is relevant, and a query is to be made up
abbrev pub IsRejected : StudyGraphState → Type 0
IsRejected s = (s.requery_semantic ≡ none) × (s.requery_count ≡ 1) × (s.graded_chunks ≡ none)

-- the loop's part of the state is as it was
abbrev pub IsSamePass : StudyGraphState → StudyGraphState → Type 0
IsSamePass s t =
    (t.requery_semantic ≡ s.requery_semantic)
    × (t.requery_count ≡ s.requery_count)
    × (t.graded_chunks ≡ s.graded_chunks)

pub Leaves-logged :
    (deps : Deps) (Q : StudyGraphState → Type 0) (l m : List StudyResponse)
    (r : Result GraphError StudyGraphState × World)
    → l ≡ m
    → Leaves deps Q l r
    → Leaves deps Q m r
Leaves-logged deps Q l m (ok s, w) e (q, p) = (q, p ∙ e)
Leaves-logged deps Q l m (err x, w) e (q, p) = (q, p ∙ e)

pub Leaves-map :
    (deps : Deps) (Q R : StudyGraphState → Type 0) (l : List StudyResponse)
    (r : Result GraphError StudyGraphState × World)
    → ((t : StudyGraphState) → Q t → R t)
    → Leaves deps Q l r
    → Leaves deps R l r
Leaves-map deps Q R l (ok t, w) f (q, p) = (f t q, p)
Leaves-map deps Q R l (err x, w) f h = h

module _ (deps : Deps) where
  pub Answers-follow :
      (Q : StudyGraphState → Type 0) (steps : ℕ) (node : Node) (s : StudyGraphState) (w : World)
      → Leaves deps Q w.logged (run_node deps node s w)
      → ((t : StudyGraphState) (v : World)
          → Q t
          → Answers deps v.logged (follow deps steps (next node t) t v))
      → Answers deps w.logged (follow deps (suc steps) (some node) s w)
  unfolding follow
  Answers-follow Q steps node s w h rest = after (run_node deps node s w) h
    where
      moved :
          (l m : List StudyResponse) (r : Result GraphError StudyGraphState × World)
          → l ≡ m
          → Answers deps l r
          → Answers deps m r
      moved l m (ok t, v) e (response, q, u, p) = (response, q, u, rw (← e) p)
      moved l m (err x, v) e (q, p) = (q, p ∙ e)

      after :
          (r : Result GraphError StudyGraphState × World)
          → Leaves deps Q w.logged r
          → Answers deps w.logged (and_then r (λ t v. follow deps steps (next node t) t v))
      after (err x, v) k = k
      after (ok t, v) (q, p) =
          moved v.logged w.logged (follow deps steps (next node t) t v) p (rest t v q)

  -- A node that ends the run with a response that is valid if names and ids are there.
  pub finish-Leaves :
      (Q : StudyGraphState → Type 0) (s : StudyGraphState) (response : StudyResponse) (w : World)
      → (IsNamed deps → is_valid_response response ≡ true)
      → Q (record s { response = some response })
      → Leaves deps Q w.logged (finish s response w)
  unfolding finish
  finish-Leaves Q s response w valid q = elim (Bool-cases (is_valid_response response)) [
    | inl e ↦ rw e (q, refl)
    | inr e ↦ rw e (inr (inr (refl, λ names. clash e (valid names))), refl)
  ]
    where
      clash : is_valid_response response ≡ false → is_valid_response response ≡ true → ⊥
      clash e v = cc

  -- an answer without patterns needs no source
  pub IsSupported-direct_response :
      (request : StudyRequest) (request_id : Text) (p : QueryPlan) (planning : PlanningMetadata)
      → IsSupported (direct_response deps request request_id p planning)
  unfolding direct_response
  IsSupported-direct_response request request_id p planning = tt

  pub IsSupported-empty_response :
      (request : StudyRequest) (request_id : Text) (status : AnswerStatus) (limitations : List Text)
      (retrieval : RetrievalMetadata) (planning : PlanningMetadata)
      → IsSupported (empty_response deps request request_id status limitations retrieval planning)
  unfolding empty_response
  IsSupported-empty_response request request_id status limitations retrieval planning = tt

  pub IsSupported-generation_failed_response :
      (request : StudyRequest) (request_id : Text) (results : List SearchResult)
      (retrieval : RetrievalMetadata) (planning : PlanningMetadata) (category : ErrorCategory)
      (attempts drops : ℕ) (result : Option GenerationResult)
      → IsSupported (
          generation_failed_response deps request request_id results retrieval planning category
            attempts drops result)
  unfolding generation_failed_response
  IsSupported-generation_failed_response request request_id results retrieval planning category
        attempts drops result =
      tt
