-- ===== src/Study/Graph/Stages/Reformulating.antt =====
-- What the node `reflect` of src/study/graph.py leaves.
use lexicon_revision.Prelude.{
  ℕ, Text, some, [], ◌∷◌, ◌≡◌, refl, ◌⊎◌, inl, inr, Result, ok, err, Bool-cases, Option-cases,
  text_HasEq,
}
use lexicon_revision.Study.Requests.{QueryPlan, GenerationResult}
use lexicon_revision.Study.Service.{Deps, CallFailure}
use lexicon_revision.Study.Graph.State.{StudyGraphState, World, call}
use lexicon_revision.Study.Graph.Retrieval.{demand}
use lexicon_revision.Study.Graph.Reflection.{
  now_for, abstain, has_remaining, step_cap_of, reformulated, is_declined, reflect_outcome,
  reflect_request, reflect_node,
}
use lexicon_revision.Study.Graph.Stages.{Leaves, Leaves-logged, Leaves-map, IsDone, IsPlanned}
use lexicon_revision.Study.Graph.Stages.Reflecting.{abstain-IsDone, abstain_behind, now_for-logged}

-- what `reflect` leaves: a response, or one query
abbrev pub IsReformulated : Deps → StudyGraphState → StudyGraphState → Type 0
IsReformulated deps s t =
    IsDone t
    ⊎ (IsPlanned deps t
        × ((query : Text) × (t.requery_semantic ≡ some (query ∷ [])))
        × (t.requery_count ≡ s.requery_count)
        × (t.graded_chunks ≡ s.graded_chunks))

module _ (deps : Deps) where
  abstained :
      (s : StudyGraphState) (w : World)
      → IsPlanned deps s
      → Leaves deps (IsReformulated deps s) w.logged (abstain deps [] s w)
  abstained s w h =
      Leaves-map deps IsDone (IsReformulated deps s) w.logged (abstain deps [] s w) (λ t d. inl d)
        (abstain-IsDone deps [] s w h)

  reflect_outcome-IsReformulated :
      (s : StudyGraphState) (p : QueryPlan) (answer : Result CallFailure GenerationResult)
      (w : World)
      → IsPlanned deps s
      → Leaves deps (IsReformulated deps s) w.logged (reflect_outcome deps s p answer w)
  unfolding reflect_outcome
  reflect_outcome-IsReformulated s p (err CallFailure.unexpected) w h = (inr (inl refl), refl)
  reflect_outcome-IsReformulated s p (err CallFailure.connection) w h = abstained s w h
  reflect_outcome-IsReformulated s p (err CallFailure.timeout) w h = abstained s w h
  reflect_outcome-IsReformulated s p (err CallFailure.model_not_available) w h = abstained s w h
  reflect_outcome-IsReformulated s p (err CallFailure.http) w h = abstained s w h
  reflect_outcome-IsReformulated s p (err CallFailure.deadline) w h = abstained s w h
  reflect_outcome-IsReformulated s p (err CallFailure.malformed) w h = abstained s w h
  reflect_outcome-IsReformulated s p (ok answer) w h =
      elim (Option-cases (deps.parse_reformulation answer.raw_content)) [
        | inl e ↦ simp (reflect_outcome, e) (abstained s w h)
        | inr (draft, e) ↦ elim (Bool-cases (is_declined deps p (reformulated deps draft))) [
          | inl q ↦ simp (reflect_outcome, e, q) (abstained s w h)
          | inr q ↦ simp (reflect_outcome, e, q) (inr (h, (_, refl), refl, refl), refl)
        ]
      ]

  reflect_behind :
      (s : StudyGraphState) (p : QueryPlan) (cap : ℕ) (v : World)
      → IsPlanned deps s
      → Leaves deps (IsReformulated deps s) v.logged (
          reflect_outcome deps s p
            (call deps (reflect_request deps s p cap) v).0
            (call deps (reflect_request deps s p cap) v).1)
  unfolding call
  reflect_behind s p cap v h =
      let asked = call deps (reflect_request deps s p cap) v in
      reflect_outcome-IsReformulated s p asked.0 asked.1 h

  pub reflect_node-IsReformulated :
      (s : StudyGraphState) (w : World)
      → IsPlanned deps s
      → Leaves deps (IsReformulated deps s) w.logged (reflect_node deps s w)
  unfolding reflect_node demand
  reflect_node-IsReformulated s w (h, (p, e), m) =
      let now = now_for deps s.deadline_monotonic w in
      elim (Bool-cases
        (has_remaining s.deadline_monotonic now.0 deps.settings.requery_min_remaining)) [
          | inr q ↦
              simp (reflect_node, demand, e, q)
                (abstain_behind deps (IsReformulated deps s) [] s s.deadline_monotonic w
                  (λ t d. inl d) (h, (p, e), m))
          | inl q ↦
              simp (reflect_node, demand, e, q)
                (Leaves-logged deps (IsReformulated deps s) now.1.logged w.logged _
                  (now_for-logged deps s.deadline_monotonic w)
                  (reflect_behind s p
                    (step_cap_of s.deadline_monotonic now.0 deps.settings.step_timeout) now.1
                    (h, (p, e), m)))
        ]
