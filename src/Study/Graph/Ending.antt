-- ===== src/Study/Graph/Ending.antt =====
-- The ways from node to node of src/study/graph.py, and the end of `orchestrate` of
-- src/study/service.py.
use lexicon_revision.Prelude.{
  ℕ, suc, Text, Option, none, some, is_some, is_empty, false, List, [], ◌∷◌, ◌++◌, ◌≡◌, refl, ◌∙◌,
  ◌⊎◌, inl, inr, Result, ok, err, and_then, arith, if◌then◌else◌,
}
use lexicon_revision.Study.Requests.{
  StudyRequest, StudyResponse, Workflow, intent_registry, content_retrieval,
}
use lexicon_revision.Study.Service.{Deps}
use lexicon_revision.Study.Graph.State.{StudyGraphState, initial, World, GraphError}
use lexicon_revision.Study.Graph.Retrieval.{demand}
use lexicon_revision.Study.Graph.Run.{
  Node, plan, direct_response, retrieve, grade, reflect, pack, generate, validate, respond_or,
  route_after_plan, route_after_grade, next, run_node, follow, orchestrate,
}
use lexicon_revision.Study.Graph.Stages.{
  IsSupported, Has, IsExternal, Answers, Answers-follow, IsDone, IsOpen, IsPlanned, IsRetrieved,
  IsPacked, IsDrafted, IsFirstPass, IsSecondPass, IsRejected,
}
use lexicon_revision.Study.Graph.Stages.Retrieving.{
  IsSearched, plan_node-IsPlanned, direct_response_node-IsDone, retrieve_node-IsSearched,
}
use lexicon_revision.Study.Graph.Stages.Reflecting.{IsGraded, grade_node-IsGraded}
use lexicon_revision.Study.Graph.Stages.Reformulating.{IsReformulated, reflect_node-IsReformulated}
use lexicon_revision.Study.Graph.Stages.Answering.{
  pack_node-IsPacked, generate_node-IsDrafted, validate_node-IsDone, Answers-respond,
}

module _ (deps : Deps) where
  -- the run goes to `respond` if there is a response, and else to the other node
  Answers-respond_or :
      (steps : ℕ) (other : Node) (t : StudyGraphState) (v : World)
      → IsDone t
        ⊎ (IsOpen deps t × Answers deps v.logged (follow deps (suc steps) (some other) t v))
      → Answers deps v.logged (follow deps (suc steps) (some (respond_or other t.response)) t v)
  unfolding respond_or
  Answers-respond_or steps other t v (inl (response, e, u)) =
      simp (respond_or, e) (Answers-respond deps steps t v (response, e, u))
  Answers-respond_or steps other t v (inr (e, h)) = simp (respond_or, e.0) h

  Answers-validate :
      (steps : ℕ) (s : StudyGraphState) (w : World)
      → IsDrafted deps s
      → Answers deps w.logged (follow deps (suc (suc steps)) (some validate) s w)
  unfolding run_node next
  Answers-validate steps s w h =
      Answers-follow deps IsDone (suc steps) validate s w (validate_node-IsDone deps s w h)
        (λ t v d. Answers-respond deps steps t v d)

  Answers-generate :
      (steps : ℕ) (s : StudyGraphState) (w : World)
      → IsPacked deps s
      → Answers deps w.logged (follow deps (suc (suc (suc steps))) (some generate) s w)
  unfolding run_node next
  Answers-generate steps s w h =
      Answers-follow deps (λ t. IsDone t ⊎ IsDrafted deps t) (suc (suc steps)) generate s w
        (generate_node-IsDrafted deps s w h)
        (λ t v d.
          Answers-respond_or (suc steps) validate t v
            (elim d [ inl x ↦ inl x | inr x ↦ inr (x.0.0.0, Answers-validate steps t v x) ]))

  Answers-pack :
      (steps : ℕ) (s : StudyGraphState) (w : World)
      → IsRetrieved deps s
      → Answers deps w.logged (follow deps (suc (suc (suc (suc steps)))) (some pack) s w)
  unfolding run_node next
  Answers-pack steps s w h =
      Answers-follow deps (λ t. IsDone t ⊎ IsPacked deps t) (suc (suc (suc steps))) pack s w
        (pack_node-IsPacked deps s w h)
        (λ t v d.
          Answers-respond_or (suc (suc steps)) generate t v
            (elim d [ inl x ↦ inl x | inr x ↦ inr (x.0.0, Answers-generate steps t v x) ]))

  Answers-done :
      (steps : ℕ) (t : StudyGraphState) (v : World)
      → IsDone t
      → Answers deps v.logged (follow deps (suc steps) (some (route_after_grade t)) t v)
  unfolding route_after_grade
  Answers-done steps t v d =
      Answers-respond_or steps
        (if is_some t.graded_chunks
          then pack
          else if is_some t.requery_semantic
          then pack
          else reflect)
        t v (inl d)

  -- behind `grade` with chunks, or with a task for `reflect`
  Answers-graded :
      (steps : ℕ) (t : StudyGraphState) (v : World)
      → IsRetrieved deps t × Has t.graded_chunks
      → Answers deps v.logged
          (follow deps (suc (suc (suc (suc steps)))) (some (route_after_grade t)) t v)
  unfolding route_after_grade
  Answers-graded steps t v (h, (chunks, e)) =
      simp (route_after_grade, e)
        (Answers-respond_or (suc (suc (suc steps))) pack t v
          (inr (h.0.0, Answers-pack steps t v h)))

  Answers-grade_again :
      (steps : ℕ) (s : StudyGraphState) (w : World)
      → IsRetrieved deps s
      → s.requery_count ≡ 1
      → Answers deps w.logged (follow deps (suc (suc (suc (suc (suc steps))))) (some grade) s w)
  unfolding run_node next
  Answers-grade_again steps s w h c =
      Answers-follow deps (IsGraded deps s) (suc (suc (suc (suc steps)))) grade s w
        (grade_node-IsGraded deps s w h)
        (λ t v d. elim d [
          | inl x ↦ Answers-done (suc (suc (suc steps))) t v x
          | inr x ↦ elim x [ inl y ↦ Answers-graded steps t v y | inr y ↦ absurd (clash y.1) ]
        ])
    where
      clash : s.requery_count ≡ 0 → ⊥
      clash q = omega arith

  Answers-retrieve_again :
      (steps : ℕ) (s : StudyGraphState) (w : World)
      → IsPlanned deps s
      → IsSecondPass s
      → Answers deps w.logged
          (follow deps (suc (suc (suc (suc (suc (suc steps)))))) (some retrieve) s w)
  unfolding run_node next
  Answers-retrieve_again steps s w h (q, c, g) =
      Answers-follow deps (IsSearched deps s) (suc (suc (suc (suc (suc steps))))) retrieve s w
        (retrieve_node-IsSearched deps s w h (inr q) g)
        (λ t v d. Answers-respond_or (suc (suc (suc (suc steps)))) grade t v (elim d [
          | inl x ↦ inl x
          | inr x ↦ inr (x.0.0.0, Answers-grade_again steps t v x.0 (x.1.1 ∙ c))
        ]))

  Answers-reflect :
      (steps : ℕ) (s : StudyGraphState) (w : World)
      → IsPlanned deps s
      → IsRejected s
      → Answers deps w.logged
          (follow deps (suc (suc (suc (suc (suc (suc (suc steps))))))) (some reflect) s w)
  unfolding run_node next
  Answers-reflect steps s w h (q, c, g) =
      Answers-follow deps (IsReformulated deps s) (suc (suc (suc (suc (suc (suc steps)))))) reflect
        s w (reflect_node-IsReformulated deps s w h)
        (λ t v d. Answers-respond_or (suc (suc (suc (suc (suc steps))))) retrieve t v (elim d [
          | inl x ↦ inl x
          | inr x ↦ inr (x.0.0, Answers-retrieve_again steps t v x.0 (x.1, x.2 ∙ c, x.3 ∙ g))
        ]))

  Answers-rejected :
      (steps : ℕ) (t : StudyGraphState) (v : World)
      → IsRetrieved deps t
      → IsRejected t
      → Answers deps v.logged (
          follow deps
            (suc (suc (suc (suc (suc (suc (suc steps)))))))
            (some (route_after_grade t))
            t
            v)
  unfolding route_after_grade
  Answers-rejected steps t v h (q, c, g) =
      simp (route_after_grade, g, q)
        (Answers-respond_or (suc (suc (suc (suc (suc (suc steps)))))) reflect t v
          (inr (h.0.0, Answers-reflect steps t v h.0 (q, c, g))))

  Answers-grade_first :
      (steps : ℕ) (s : StudyGraphState) (w : World)
      → IsRetrieved deps s
      → IsFirstPass s
      → Answers deps w.logged
          (follow deps (suc (suc (suc (suc (suc (suc (suc (suc steps)))))))) (some grade) s w)
  unfolding run_node next
  Answers-grade_first steps s w h (q, c, g) =
      Answers-follow deps (IsGraded deps s) (suc (suc (suc (suc (suc (suc (suc steps))))))) grade s
        w (grade_node-IsGraded deps s w h)
        (λ t v d. elim d [
          | inl x ↦ Answers-done (suc (suc (suc (suc (suc (suc steps)))))) t v x
          | inr x ↦ elim x [
            | inl y ↦ Answers-graded (suc (suc (suc steps))) t v y
            | inr y ↦ Answers-rejected steps t v y.0 (y.2 ∙ q, y.3, y.4 ∙ g)
          ]
        ])

  Answers-retrieve_first :
      (steps : ℕ) (s : StudyGraphState) (w : World)
      → IsPlanned deps s
      → IsFirstPass s
      → Answers deps w.logged (
          follow deps
            (suc (suc (suc (suc (suc (suc (suc (suc (suc steps)))))))))
            (some retrieve)
            s
            w)
  unfolding run_node next
  Answers-retrieve_first steps s w h (q, c, g) =
      Answers-follow deps (IsSearched deps s) (suc (suc (suc (suc (suc (suc (suc (suc steps))))))))
        retrieve s w (retrieve_node-IsSearched deps s w h (inl q) g)
        (λ t v d.
          Answers-respond_or (suc (suc (suc (suc (suc (suc (suc steps))))))) grade t v (elim d [
            | inl x ↦ inl x
            | inr x ↦
                inr (x.0.0.0, Answers-grade_first steps t v x.0 (x.1.0 ∙ q, x.1.1 ∙ c, x.1.2 ∙ g))
          ]))

  Answers-direct_response :
      (steps : ℕ) (s : StudyGraphState) (w : World)
      → IsPlanned deps s
      → Answers deps w.logged (follow deps (suc (suc steps)) (some direct_response) s w)
  unfolding run_node next
  Answers-direct_response steps s w h =
      Answers-follow deps IsDone (suc steps) direct_response s w
        (direct_response_node-IsDone deps s w h) (λ t v d. Answers-respond deps steps t v d)

  Answers-plan :
      (steps : ℕ) (request : StudyRequest) (request_id : Text) (deadline : Option ℕ) (w : World)
      → is_empty request_id ≡ false
      → Answers deps w.logged (
          follow deps
            (suc (suc (suc (suc (suc (suc (suc (suc (suc (suc steps))))))))))
            (some plan)
            (initial request request_id deadline)
            w)
  unfolding run_node next route_after_plan
  Answers-plan steps request request_id deadline w named =
      Answers-follow deps (λ t. IsPlanned deps t × IsFirstPass t)
        (suc (suc (suc (suc (suc (suc (suc (suc (suc steps))))))))) plan
        (initial request request_id deadline) w
        (plan_node-IsPlanned deps (initial request request_id deadline) w
          (refl, λ n. (named, tt, tt)) (refl, refl, refl))
        (λ t v h.
          planned t v h
            ((intent_registry
              (elim t.plan [ none ↦ content_retrieval | some q ↦ q.intent ])).workflow)
            refl)
    where
      planned :
          (t : StudyGraphState) (v : World)
          → IsPlanned deps t × IsFirstPass t
          → (workflow : Workflow)
          → (intent_registry
              (elim t.plan [ none ↦ content_retrieval | some q ↦ q.intent ])).workflow
            ≡ workflow
          → Answers deps v.logged (
              follow deps
                (suc (suc (suc (suc (suc (suc (suc (suc (suc steps)))))))))
                (some (route_after_plan t.plan))
                t
                v)
      planned t v h Workflow.retrieval e =
          simp (route_after_plan, e) (Answers-retrieve_first steps t v h.0 h.1)
      planned t v h Workflow.direct_response e =
          simp (route_after_plan, e)
            (Answers-direct_response (suc (suc (suc (suc (suc (suc (suc steps))))))) t v h.0)

-- The request got a supported response, the one that was logged, or an exception that a collaborator caused.
abbrev pub IsAnswered : Deps → List StudyResponse → Result GraphError StudyResponse × World → Type 0
IsAnswered deps logged result =
    ((response : StudyResponse) × (result.0 ≡ ok response)
      × IsSupported response
      × (result.1.logged ≡ logged ++ response ∷ []))
    ⊎ ((e : GraphError) × (result.0 ≡ err e) × IsExternal deps e × (result.1.logged ≡ logged))

module _ (deps : Deps) where
  answered :
      (logged : List StudyResponse) (r : Result GraphError StudyGraphState × World)
      → Answers deps logged r
      → IsAnswered deps logged
          (and_then r (λ s. demand s.response (λ response v. (ok response, v))))
  unfolding demand
  answered logged (ok s, w) (response, e, u, p) = simp (demand, e) (inl (response, refl, u, p))
  answered logged (err x, w) (q, p) = inr (x, refl, q, p)

  -- Every run for a request with an id ends within LangGraph's limit of steps: in a response that was
  -- logged once, and whose sources have every chunk that supports one of its patterns; or with nothing
  -- logged in an exception, of the search for an invalid filter, an unexpected one of the provider, or
  -- pydantic's, which is not raised when the settings and the results of the provider have names
  -- and the chunks that the search found have ids.
  pub orchestrate-IsAnswered :
      (request : StudyRequest) (request_id : Text) (deadline : Option ℕ) (w : World)
      → is_empty request_id ≡ false
      → IsAnswered deps w.logged (orchestrate deps request request_id deadline w)
  unfolding orchestrate
  orchestrate-IsAnswered request request_id deadline w named =
      answered w.logged (follow deps 25 (some plan) (initial request request_id deadline) w)
        (Answers-plan deps 15 request request_id deadline w named)
