-- ===== src/Study/Graph/Citations.antt =====
-- What an answered request of src/study/graph.py shows for the chunks that it cites.
use lexicon_revision.Prelude.{
  ℕ, IsIn-append_left, Text, text_HasEq, All, All-map, All-append, All-of_IsIn, All-IsIn, IsIn, map,
  some, List, [], ◌∷◌, ◌++◌, ◌≡◌,
}
use lexicon_revision.Study.Models.{StudyPattern, CitedSource, StudyAnswerDraft}
use lexicon_revision.Study.Requests.{
  StudyRequest, SearchResult, RetrievalMetadata, PlanningMetadata, GenerationResult,
}
use lexicon_revision.Study.Validation.{validate_citations}
use lexicon_revision.Study.Validation.Grounding.{IsGrounded, validate_citations-IsGrounded}
use lexicon_revision.Study.Validation.Grounding.Kept.{IsGroundedPattern}
use lexicon_revision.Study.Service.{Deps}
use lexicon_revision.Study.Service.Responses.{supporting_ids, source_ids_of, success_response}
use lexicon_revision.Study.Service.Sources.{
  id_of, chunk_id-sources_of, All-ordered_unique, IsIn-ordered_unique,
}
use lexicon_revision.Study.Graph.Stages.{ids_of_sources, IsSupported}

-- all ids that a draft cites, repeated as it repeats them
abbrev pub mentioned : StudyAnswerDraft → List Text
mentioned d = supporting_ids d.patterns ++ map (λ (s : CitedSource). s.chunk_id) d.cited_sources

All-supporting_ids :
    (valid : List Text) (ps : List StudyPattern)
    → All (IsGroundedPattern valid) ps
    → All (λ id. IsIn id valid) (supporting_ids ps)
All-supporting_ids valid [] h = tt
All-supporting_ids valid (p ∷ ps) (g, h) =
    All-append (λ id. IsIn id valid) p.supporting_chunk_ids (supporting_ids ps) g.clean.within
      (All-supporting_ids valid ps h)

All-source_ids :
    (P : Text → Type 0) (ss : List CitedSource)
    → All (λ (s : CitedSource). P s.chunk_id) ss
    → All P (map (λ (s : CitedSource). s.chunk_id) ss)
All-source_ids P [] h = tt
All-source_ids P (s ∷ ss) (p, h) = (p, All-source_ids P ss h)

-- The sources of an accepted draft, if the context was retrieved: one for each id that it cites.
All-source_ids_of :
    (retrieved valid : List Text) (d : StudyAnswerDraft)
    → All (λ id. IsIn id retrieved) valid
    → IsGrounded valid d
    → All (λ id. IsIn id retrieved) (source_ids_of d)
unfolding source_ids_of
All-source_ids_of retrieved valid d h g =
    All-ordered_unique (λ id. IsIn id retrieved) (mentioned d)
      (All-map (λ id. IsIn id valid) (λ id. IsIn id retrieved)
        (λ id m. All-IsIn (λ v. IsIn v retrieved) id valid h m) (mentioned d)
        (All-append (λ id. IsIn id valid) (supporting_ids d.patterns)
          (map (λ (s : CitedSource). s.chunk_id) d.cited_sources)
          (All-supporting_ids valid d.patterns g.patterns)
          (All-source_ids (λ id. IsIn id valid) d.cited_sources g.sources)))

module _ (deps : Deps) where
  -- If the draft is accepted and the valid ids were retrieved, the sources of the response are the
  -- chunks that the accepted draft mentions: each of them, once.
  sources-mentioned :
      (request : StudyRequest) (request_id : Text) (results : List SearchResult)
      (retrieval : RetrievalMetadata) (planning : PlanningMetadata) (result : GenerationResult)
      (valid : List Text) (draft accepted : StudyAnswerDraft) (attempts : ℕ)
      → (validate_citations draft valid).draft ≡ some accepted
      → All (λ id. IsIn id (map id_of results)) valid
      → ids_of_sources (
          success_response deps request request_id results retrieval planning result
            (validate_citations draft valid)
            accepted
            attempts)
        ≡ source_ids_of accepted
  unfolding success_response
  sources-mentioned request request_id results retrieval planning result valid draft accepted
        attempts l m =
      chunk_id-sources_of results _ (source_ids_of accepted) (
        All-source_ids_of (map id_of results) valid accepted m
          (validate_citations-IsGrounded draft valid accepted l))

  pub IsSupported-success_response :
      (request : StudyRequest) (request_id : Text) (results : List SearchResult)
      (retrieval : RetrievalMetadata) (planning : PlanningMetadata) (result : GenerationResult)
      (valid : List Text) (draft accepted : StudyAnswerDraft) (attempts : ℕ)
      → (validate_citations draft valid).draft ≡ some accepted
      → All (λ id. IsIn id (map id_of results)) valid
      → IsSupported (
          success_response deps request request_id results retrieval planning result
            (validate_citations draft valid)
            accepted
            attempts)
  unfolding success_response source_ids_of
  IsSupported-success_response request request_id results retrieval planning result valid draft
        accepted attempts l m =
      rw
        (sources-mentioned request request_id results retrieval planning result valid draft accepted
          attempts l m)
        (All-of_IsIn (λ id. IsIn id (source_ids_of accepted)) (supporting_ids accepted.patterns)
          (λ id n. IsIn-ordered_unique (mentioned accepted) id (
            IsIn-append_left id (supporting_ids accepted.patterns)
              (map (λ (c : CitedSource). c.chunk_id) accepted.cited_sources) n)))
