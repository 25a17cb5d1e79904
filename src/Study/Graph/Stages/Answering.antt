-- ===== src/Study/Graph/Stages/Answering.antt =====
-- What the nodes `pack`, `generate`, `validate` and `respond` of src/study/graph.py leave.
use lexicon_revision.Prelude.{
  ◌∷◌, Bool, false, is_empty, to_set, to_set-IsIn, All, All-of_IsIn, All-IsIn, IsIn, map, filter,
  contains, not, text_HasEq, Text, Bool-cases, ℕ, zero, suc, Text, Option, none, some, List, [],
  ◌≡◌, refl, ◌⊎◌, inl, inr, Result, ok, err, Option-cases,
}
use lexicon_revision.Study.Models.{PackingStatus, PackingResult, StudyAnswerDraft}
use lexicon_revision.Study.Requests.{
  QueryPlan, PlanningMetadata, SearchResult, RetrievalMetadata, GenerationRequest, GenerationResult,
}
use lexicon_revision.Study.Service.{Deps, CallFailure}
use lexicon_revision.Study.Validation.{validate_citations}
use lexicon_revision.Study.Graph.State.{StudyGraphState, World, call}
use lexicon_revision.Study.Graph.Retrieval.{demand}
use lexicon_revision.Study.Graph.Answering.{
  Generated, drafted, failed, raised, ranked_chunks_of, packing_of, retrieval_of, accept_packing,
  pack_node, repair, repair_output, repair_request, generated, accept_generated, generate_node,
  accept_validation, validate_node, respond_node,
}
use lexicon_revision.Study.Graph.Naming.{
  IsNamed, HasName, HasIds, generation_failed_response-valid, success_response-valid,
}
use lexicon_revision.Study.Graph.Naming.Generation.{HasNames, generated-HasNames}
use lexicon_revision.Study.Graph.Run.{follow, respond, run_node, next}
use lexicon_revision.Study.Packing.{heuristic_estimate, removed_ids, dedupe_parent_child}
use lexicon_revision.Study.Packing.Budget.{
  Shares, packed_ids, ranked_ids, pack_chunks-IsMaximalPacking, IsMaximalPacking-ids,
}
use lexicon_revision.Study.Service.Responses.{context_budget_tokens, single_chunk_limit}
use lexicon_revision.Study.Service.Sources.{id_of}
use lexicon_revision.Study.Graph.Citations.{IsSupported-success_response}
use lexicon_revision.Study.Graph.Stages.Reflecting.{results_within}
use lexicon_revision.Study.Models.{RankedChunk}
use lexicon_revision.Study.Graph.Stages.{
  IsPlanned, IsWithin, IsSupported-generation_failed_response, finish-Leaves, Leaves, Leaves-logged,
  Answers, IsDone, IsRetrieved, IsPacked, IsDrafted,
}

All-shared : (P : Text → Type 0) (ls rs xs : List Text) → Shares ls rs xs → All P xs → All P ls
All-shared P ls rs xs Shares.done h = tt
All-shared P ls rs xs (Shares.left s) h = (h.0, All-shared P _ rs _ s h.1)
All-shared P ls rs xs (Shares.right s) h = All-shared P ls _ _ s h.1

All-kept :
    (P : Text → Type 0) (keep : RankedChunk → Bool) (chunks : List RankedChunk)
    → All P (ranked_ids chunks)
    → All P (ranked_ids (filter keep chunks))
unfolding filter
All-kept P keep [] h = tt
All-kept P keep (c ∷ cs) (p, h) = elim (Bool-cases (keep c)) [
  | inl q ↦ rw (filter, q) (p, All-kept P keep cs h)
  | inr q ↦ rw (filter, q) (All-kept P keep cs h)
]

module _ (deps : Deps) where
  accept_packing-IsPacked :
      (s : StudyGraphState) (results : List SearchResult) (p : QueryPlan)
      (planning : PlanningMetadata) (retrieval : RetrievalMetadata) (packing : PackingResult)
      (status : PackingStatus) (w : World)
      → IsPlanned deps s
      → s.search_response ≡ some results
      → All (λ id. IsIn id (map id_of results)) retrieval.context_chunk_ids
      → Leaves deps
          (λ t. IsDone t ⊎ IsPacked deps t)
          w.logged
          (accept_packing deps s results p planning retrieval packing status w)
  unfolding accept_packing
  accept_packing-IsPacked s results p planning retrieval packing PackingStatus.context_pack_failed w
        h e m =
      finish-Leaves deps (λ t. IsDone t ⊎ IsPacked deps t) _ _ w
        (λ n.
          generation_failed_response-valid deps n _ _ results _ _ _ _ _ none (h.0.1 n).0
            (rw e at (h.0.1 n).1) tt)
        (inl (_, refl, IsSupported-generation_failed_response deps _ _ _ _ _ _ _ _ _))
  accept_packing-IsPacked s results p planning retrieval packing PackingStatus.ok w h e m =
      (inr (h, (results, retrieval, e, refl, m, (_, refl))), refl)

  -- the context is made of the chunks that are packed from
  context_within :
      (P : Text → Type 0) (chunks : List RankedChunk)
      → All P (ranked_ids chunks)
      → All P (packed_ids (packing_of deps chunks).chunks)
  unfolding packing_of dedupe_parent_child
  context_within P chunks h =
      let kept = dedupe_parent_child chunks in
      let packing = packing_of deps chunks in
      All-shared P (packed_ids packing.chunks) packing.omitted_chunk_ids (ranked_ids kept)
        (IsMaximalPacking-ids heuristic_estimate (context_budget_tokens deps)
          (single_chunk_limit deps) kept packing
          (pack_chunks-IsMaximalPacking heuristic_estimate (context_budget_tokens deps)
            (single_chunk_limit deps) kept))
        (All-kept P (λ c. not (contains (removed_ids chunks chunks) c.chunk_id)) chunks h)

  chunks_within :
      (graded : Option (List RankedChunk)) (results : List SearchResult)
      → IsWithin graded results
      → All (λ id. IsIn id (map id_of results)) (ranked_ids (ranked_chunks_of graded results))
  unfolding ranked_chunks_of
  chunks_within none results h = results_within results
  chunks_within (some graded) results h = h

  pub pack_node-IsPacked :
      (s : StudyGraphState) (w : World)
      → IsRetrieved deps s
      → Leaves deps (λ t. IsDone t ⊎ IsPacked deps t) w.logged (pack_node deps s w)
  unfolding pack_node demand retrieval_of
  pack_node-IsPacked s w ((h, (p, e), (m, f)), (results, g, v)) =
      let chunks = ranked_chunks_of s.graded_chunks results in
      let packing = packing_of deps chunks in
      simp (pack_node, demand, e, f, g)
        (accept_packing-IsPacked s results p m (retrieval_of deps s results chunks packing) packing
          packing.status w (h, (p, e), (m, f)) g
          (context_within (λ id. IsIn id (map id_of results)) chunks
            (chunks_within s.graded_chunks results v)))

  accept_generated-IsDrafted :
      (s : StudyGraphState) (results : List SearchResult) (retrieval : RetrievalMetadata)
      (planning : PlanningMetadata) (outcome : Generated) (w : World)
      → IsPacked deps s
      → s.search_response ≡ some results
      → (IsNamed deps → HasNames outcome)
      → Leaves deps
          (λ t. IsDone t ⊎ IsDrafted deps t)
          w.logged
          (accept_generated deps s results retrieval planning outcome w)
  unfolding accept_generated
  accept_generated-IsDrafted s results retrieval planning raised w h g names =
      (inr (inl refl), refl)
  accept_generated-IsDrafted s results retrieval planning (failed c k r) w h g names =
      finish-Leaves deps (λ t. IsDone t ⊎ IsDrafted deps t) s _ w
        (λ n.
          generation_failed_response-valid deps n _ _ results _ _ _ _ _ r (h.0.0.1 n).0
            (rw g at (h.0.0.1 n).1) (names n))
        (inl (_, refl, IsSupported-generation_failed_response deps _ _ _ _ _ _ _ _ _))
  accept_generated-IsDrafted s results retrieval planning (drafted d r k) w h g names = (
    inr (
      (((h.0.0.0, λ n. ((h.0.0.1 n).0, (h.0.0.1 n).1, names n)), h.0.1, h.0.2), h.1),
      (_, refl),
      (_, refl),
    ),
    refl,
  )

  repair-logged :
      (request : GenerationRequest) (first : Option GenerationResult) (left attempts : ℕ)
      (w : World)
      → (repair deps request first left attempts w).1.logged ≡ w.logged
  unfolding repair call
  repair-logged request first zero attempts w = refl
  repair-logged request first (suc left) attempts w =
      after (deps.generate w.calls request) refl
        (repair-logged request first left (suc attempts) (call deps request w).1)
    where
      after :
          (answer : Result CallFailure GenerationResult)
          → deps.generate w.calls request ≡ answer
          → (repair deps request first left (suc attempts) (call deps request w).1).1.logged
            ≡ w.logged
          → (repair deps request first (suc left) attempts w).1.logged ≡ w.logged
      after (err CallFailure.unexpected) e ih = simp (repair, e)
      after (err CallFailure.malformed) e ih = simp (repair, e) ih
      after (err CallFailure.connection) e ih = simp (repair, e)
      after (err CallFailure.timeout) e ih = simp (repair, e)
      after (err CallFailure.model_not_available) e ih = simp (repair, e)
      after (err CallFailure.http) e ih = simp (repair, e)
      after (err CallFailure.deadline) e ih = simp (repair, e)
      after (ok result) e ih = elim (Option-cases (deps.parse_draft result.raw_content)) [
        | inl q ↦ simp (repair, e, q) ih
        | inr (draft, q) ↦ simp (repair, e, q)
      ]

  generated-logged :
      (request : GenerationRequest) (w : World) → (generated deps request w).1.logged ≡ w.logged
  unfolding generated call repair_output
  generated-logged request w = after (deps.generate w.calls request) refl
    where
      repaired :
          (first : Option GenerationResult) (output : Text)
          → (repair_output deps request first output (call deps request w).1).1.logged ≡ w.logged
      repaired first output =
          repair-logged (repair_request request output (deps.error_summary output)) first
            deps.settings.schema_repair_retries 1 (call deps request w).1

      after :
          (answer : Result CallFailure GenerationResult)
          → deps.generate w.calls request ≡ answer
          → (generated deps request w).1.logged ≡ w.logged
      after (err CallFailure.unexpected) e = simp (generated, e)
      after (err CallFailure.malformed) e = simp (generated, e) (repaired none [])
      after (err CallFailure.connection) e = simp (generated, e)
      after (err CallFailure.timeout) e = simp (generated, e)
      after (err CallFailure.model_not_available) e = simp (generated, e)
      after (err CallFailure.http) e = simp (generated, e)
      after (err CallFailure.deadline) e = simp (generated, e)
      after (ok result) e = elim (Option-cases (deps.parse_draft result.raw_content)) [
        | inl q ↦ simp (generated, e, q) (repaired (some result) result.raw_content)
        | inr (draft, q) ↦ simp (generated, e, q)
      ]

  pub generate_node-IsDrafted :
      (s : StudyGraphState) (w : World)
      → IsPacked deps s
      → Leaves deps (λ t. IsDone t ⊎ IsDrafted deps t) w.logged (generate_node deps s w)
  unfolding generate_node demand
  generate_node-IsDrafted s w ((h, p, (m, f)), (results, retrieval, g, k, within, (request, l))) =
      let outcome = generated deps request w in
      simp (generate_node, demand, f, g, k, l)
        (Leaves-logged deps (λ t. IsDone t ⊎ IsDrafted deps t) outcome.1.logged w.logged
          (accept_generated deps s results retrieval m outcome.0 outcome.1)
          (generated-logged request w)
          (accept_generated-IsDrafted s results retrieval m outcome.0 outcome.1
            ((h, p, (m, f)), (results, retrieval, g, k, within, (request, l))) g
            (λ n. generated-HasNames deps n request w)))

  accept_validation-IsDone :
      (s : StudyGraphState) (results : List SearchResult) (retrieval : RetrievalMetadata)
      (planning : PlanningMetadata) (result : GenerationResult) (valid : List Text)
      (draft : StudyAnswerDraft) (accepted : Option StudyAnswerDraft) (w : World)
      → (validate_citations draft valid).draft ≡ accepted
      → All (λ id. IsIn id (map id_of results)) valid
      → (IsNamed deps → (is_empty s.request_id ≡ false) × HasIds results × HasName result)
      → Leaves deps IsDone w.logged (
          accept_validation deps s results retrieval planning result
            (validate_citations draft valid)
            accepted
            w)
  unfolding accept_validation
  accept_validation-IsDone s results retrieval planning result valid draft none w e m names =
      finish-Leaves deps IsDone _ _ w
        (λ n.
          generation_failed_response-valid deps n _ _ results _ _ _ _ _ (some result) (names n).0
            (names n).1 (names n).2)
        (_, refl, IsSupported-generation_failed_response deps _ _ _ _ _ _ _ _ _)
  accept_validation-IsDone s results retrieval planning result valid draft (some accepted) w e m
        names =
      finish-Leaves deps IsDone _ _ w
        (λ n.
          success_response-valid deps n _ _ results _ _ result _ accepted _ (names n).0 (names n).1
            (names n).2)
        (
          _,
          refl,
          IsSupported-success_response deps _ _ results retrieval planning result valid draft
              accepted _ e m,
        )

  pub validate_node-IsDone :
      (s : StudyGraphState) (w : World)
      → IsDrafted deps s
      → Leaves deps IsDone w.logged (validate_node deps s w)
  unfolding validate_node demand
  validate_node-IsDone s w
        (((h, p, (m, f)), (results, retrieval, g, k, within, l)), (draft, d), (result, r)) =
      let ids = to_set retrieval.context_chunk_ids in
      simp (validate_node, demand, f, g, k, d, r)
        (accept_validation-IsDone s results retrieval m result ids draft
          (validate_citations draft ids).draft w refl
          (All-of_IsIn (λ id. IsIn id (map id_of results)) ids
            (λ id i.
              All-IsIn (λ v. IsIn v (map id_of results)) id retrieval.context_chunk_ids within
                (to_set-IsIn retrieval.context_chunk_ids id i)))
          (λ n. ((h.1 n).0, rw g at (h.1 n).1, rw r at (h.1 n).2)))

  pub Answers-respond :
      (steps : ℕ) (s : StudyGraphState) (w : World)
      → IsDone s
      → Answers deps w.logged (follow deps (suc steps) (some respond) s w)
  unfolding follow run_node respond_node demand next
  Answers-respond steps s w (response, e, u) =
      simp (follow, run_node, respond_node, demand, next, e) (response, refl, u, refl)
