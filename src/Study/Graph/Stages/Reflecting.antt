-- ===== src/Study/Graph/Stages/Reflecting.antt =====
-- What the node `grade` of src/study/graph.py leaves.
use lexicon_revision.Study.Models.{RankedChunk}
use lexicon_revision.Study.Service.{ranked_chunk}
use lexicon_revision.Study.Service.Sources.{id_of}
use lexicon_revision.Prelude.{
  All, All-of_IsIn, IsIn, IsIn-filter, filter, contains, map, ap, ℕ, Text, ◌&&◌, Option, none, some,
  List, [], ◌∷◌, ◌≡◌, refl, ◌⊎◌, inl, inr, Result, ok, err, Bool-cases, Option-cases, nat_eq,
  nat_eq_iff, text_HasEq, arith,
}
use lexicon_revision.Study.Requests.{SearchResult, GenerationResult, RelevanceGradingDraft}
use lexicon_revision.Study.Service.{Deps, CallFailure}
use lexicon_revision.Study.Graph.State.{StudyGraphState, World, call, read_clock}
use lexicon_revision.Study.Graph.Retrieval.{demand}
use lexicon_revision.Study.Graph.Reflection.{
  now_for, abstain, accepted_results, has_remaining, judge, accept_all, grade_outcome, ask_grader,
  is_old, grade_node, step_cap_of, grader_request,
}
use lexicon_revision.Study.Graph.Naming.{empty_response-valid}
use lexicon_revision.Study.Graph.Stages.{
  IsWithin, IsSupported-empty_response, finish-Leaves, Has, Leaves, Leaves-logged, Leaves-map,
  IsDone, IsPlanned, IsRetrieved,
}

-- what `grade` leaves: a response, chunks, or in the first pass the task of a new query
abbrev pub IsGraded : Deps → StudyGraphState → StudyGraphState → Type 0
IsGraded deps s t =
    IsDone t
    ⊎ ((IsRetrieved deps t × Has t.graded_chunks)
        ⊎ (IsRetrieved deps t
            × (s.requery_count ≡ 0)
            × (t.requery_semantic ≡ s.requery_semantic)
            × (t.requery_count ≡ 1)
            × (t.graded_chunks ≡ s.graded_chunks)))

-- `IsRetrieved` with the results named
abbrev IsOver : Deps → StudyGraphState → List SearchResult → Type 0
IsOver deps s results =
    IsPlanned deps s × (s.search_response ≡ some results) × IsWithin s.graded_chunks results

retrieved :
    (deps : Deps) (s : StudyGraphState) (results : List SearchResult)
    → IsOver deps s results
    → IsRetrieved deps s
retrieved deps s results (h, e, g) = (h, (results, e, g))

IsIn-map_id :
    (r : SearchResult) (results : List SearchResult)
    → IsIn r results
    → IsIn r.chunk_id (map id_of results)
IsIn-map_id r [] m = absurd m
IsIn-map_id r (x ∷ xs) (inl e) = inl (ap id_of e)
IsIn-map_id r (x ∷ xs) (inr m) = inr (IsIn-map_id r xs m)

within_of :
    (kept results : List SearchResult)
    → All (λ r. IsIn r results) kept
    → All
        (λ id. IsIn id (map id_of results))
        (map (λ (c : RankedChunk). c.chunk_id) (map ranked_chunk kept))
unfolding ranked_chunk
within_of [] results h = tt
within_of (r ∷ rs) results (m, h) = (IsIn-map_id r results m, within_of rs results h)

pub results_within :
    (results : List SearchResult)
    → All
        (λ id. IsIn id (map id_of results))
        (map (λ (c : RankedChunk). c.chunk_id) (map ranked_chunk results))
results_within results =
    within_of results results (All-of_IsIn (λ r. IsIn r results) results (λ r m. m))

accepted_within :
    (results kept : List SearchResult) (ids : List Text)
    → accepted_results results ids ≡ kept
    → All (λ r. IsIn r results) kept
unfolding accepted_results
accepted_within results kept ids e = rw (← e) (
    All-of_IsIn (λ r. IsIn r results)
      (filter (λ (r : SearchResult). contains ids r.chunk_id) results)
      (λ r m. (IsIn-filter (λ (r : SearchResult). contains ids r.chunk_id) r results m).0))

module _ (deps : Deps) where
  pub now_for-logged :
      (deadline : Option ℕ) (w : World) → (now_for deps deadline w).1.logged ≡ w.logged
  unfolding now_for read_clock
  now_for-logged none w = refl
  now_for-logged (some deadline) w = refl

  pub abstain-IsDone :
      (critique : Text) (s : StudyGraphState) (w : World)
      → IsPlanned deps s
      → Leaves deps IsDone w.logged (abstain deps critique s w)
  unfolding abstain demand
  abstain-IsDone critique s w (h, p, (m, e)) =
      simp (abstain, demand, e)
        (finish-Leaves deps IsDone s _ w (λ n. empty_response-valid deps n _ _ _ _ _ _ (h.1 n).0)
          (_, refl, IsSupported-empty_response deps _ _ _ _ _ _))

  pub abstain_behind :
      (R : StudyGraphState → Type 0) (critique : Text) (s : StudyGraphState) (deadline : Option ℕ)
      (w : World)
      → ((t : StudyGraphState) → IsDone t → R t)
      → IsPlanned deps s
      → Leaves deps R w.logged (abstain deps critique s (now_for deps deadline w).1)
  abstain_behind R critique s deadline w f h =
      let v = (now_for deps deadline w).1 in
      Leaves-logged deps R v.logged w.logged (abstain deps critique s v) (now_for-logged deadline w)
        (Leaves-map deps IsDone R v.logged (abstain deps critique s v) f
          (abstain-IsDone critique s v h))

  judge-IsGraded :
      (s : StudyGraphState) (results : List SearchResult) (draft : RelevanceGradingDraft)
      (w : World)
      → IsOver deps s results
      → Leaves deps (IsGraded deps s) w.logged (judge deps s results draft w)
  unfolding judge
  judge-IsGraded s results draft w h = go (accepted_results results draft.accepted_chunk_ids) refl
    where
      go :
          (accepted : List SearchResult)
          → accepted_results results draft.accepted_chunk_ids ≡ accepted
          → Leaves deps (IsGraded deps s) w.logged (judge deps s results draft w)
      go (r ∷ rs) e =
          simp (judge, e)
            (
              inr (
                  inl (
                    (
                      h.0,
                      (
                        results,
                        h.1,
                        within_of (r ∷ rs) results
                            (accepted_within results (r ∷ rs) draft.accepted_chunk_ids e),
                      ),
                    ),
                    (_, refl),
                  )),
              refl,
            )
      go [] e =
          elim (Bool-cases (
            nat_eq s.requery_count 0
            && has_remaining s.deadline_monotonic (now_for deps s.deadline_monotonic w).0
                deps.settings.requery_min_remaining)) [
                  | inl q ↦
                      simp (judge, e, q)
                        (
                          inr (
                              inr (
                                retrieved deps s results h,
                                (nat_eq_iff s.requery_count 0).0 (ground arith),
                                refl,
                                refl,
                                refl,
                              )),
                          now_for-logged s.deadline_monotonic w,
                        )
                  | inr q ↦
                      simp (judge, e, q)
                        (abstain_behind (IsGraded deps s) _ s s.deadline_monotonic w (λ t d. inl d)
                          h.0)
                ]

  accepted_all :
      (s : StudyGraphState) (results : List SearchResult) (w : World)
      → IsOver deps s results
      → Leaves deps (IsGraded deps s) w.logged (ok (accept_all s results), w)
  unfolding accept_all
  accepted_all s results w h =
      (inr (inl ((h.0, (results, h.1, results_within results)), (_, refl))), refl)

  grade_outcome-IsGraded :
      (s : StudyGraphState) (results : List SearchResult)
      (answer : Result CallFailure GenerationResult) (w : World)
      → IsOver deps s results
      → Leaves deps (IsGraded deps s) w.logged (grade_outcome deps s results answer w)
  unfolding grade_outcome accept_all
  grade_outcome-IsGraded s results (err CallFailure.unexpected) w h = (inr (inl refl), refl)
  grade_outcome-IsGraded s results (err CallFailure.connection) w h = accepted_all s results w h
  grade_outcome-IsGraded s results (err CallFailure.timeout) w h = accepted_all s results w h
  grade_outcome-IsGraded s results (err CallFailure.model_not_available) w h =
      accepted_all s results w h
  grade_outcome-IsGraded s results (err CallFailure.http) w h = accepted_all s results w h
  grade_outcome-IsGraded s results (err CallFailure.deadline) w h = accepted_all s results w h
  grade_outcome-IsGraded s results (err CallFailure.malformed) w h = accepted_all s results w h
  grade_outcome-IsGraded s results (ok answer) w h =
      elim (Option-cases (deps.parse_grading answer.raw_content)) [
        | inl e ↦ simp (grade_outcome, e) (accepted_all s results w h)
        | inr (draft, e) ↦ simp (grade_outcome, e) (judge-IsGraded s results draft w h)
      ]

  ask_grader-IsGraded :
      (s : StudyGraphState) (results : List SearchResult) (now : ℕ) (w : World)
      → IsOver deps s results
      → Leaves deps (IsGraded deps s) w.logged (ask_grader deps s results now w)
  unfolding ask_grader call
  ask_grader-IsGraded s results now w h =
      let asked =
        call deps
          (grader_request deps s results
            (step_cap_of s.deadline_monotonic now deps.settings.step_timeout))
          w in
      grade_outcome-IsGraded s results asked.0 asked.1 h

  pub grade_node-IsGraded :
      (s : StudyGraphState) (w : World)
      → IsRetrieved deps s
      → Leaves deps (IsGraded deps s) w.logged (grade_node deps s w)
  unfolding grade_node demand
  grade_node-IsGraded s w (h, (results, e, g)) =
      elim (Bool-cases deps.settings.reflection_enabled) [
        | inr q ↦ simp (grade_node, demand, e, q) (accepted_all s results w (h, e, g))
        | inl q ↦ elim (Bool-cases (nat_eq s.requery_count 1 && is_old s.seen_chunk_ids results)) [
          | inl o ↦
              simp (grade_node, demand, e, q, o)
                (abstain_behind (IsGraded deps s) [] s s.deadline_monotonic w (λ t d. inl d) h)
          | inr o ↦
              simp (grade_node, demand, e, q, o)
                (Leaves-logged deps (IsGraded deps s) (now_for deps s.deadline_monotonic w).1.logged
                  w.logged
                  (ask_grader deps s results (now_for deps s.deadline_monotonic w).0
                    (now_for deps s.deadline_monotonic w).1)
                  (now_for-logged s.deadline_monotonic w)
                  (ask_grader-IsGraded s results (now_for deps s.deadline_monotonic w).0
                    (now_for deps s.deadline_monotonic w).1 (h, e, g)))
        ]
      ]
