-- ===== src/Study/Graph/Naming/Generation.antt =====
-- The names of the results that the generation of src/study/graph.py ends with.
use lexicon_revision.Prelude.{
  ℕ, zero, suc, Text, Option, none, some, Option-cases, [], Result, ok, err, ◌≡◌, refl, inl, inr,
}
use lexicon_revision.Study.Requests.{GenerationRequest, GenerationResult}
use lexicon_revision.Study.Service.{Deps, CallFailure}
use lexicon_revision.Study.Graph.State.{World, call}
use lexicon_revision.Study.Graph.Answering.{
  Generated, drafted, failed, raised, repair, repair_output, repair_request, generated,
}
use lexicon_revision.Study.Graph.Naming.{OnSome, HasName, IsNamed}

-- the results that a generation ends with have names
abbrev pub HasNames : Generated → Type 0
HasNames (drafted draft result n) = HasName result
HasNames (failed category n first) = OnSome HasName first
HasNames raised = Unit

module _ (deps : Deps) (names : IsNamed deps) where
  repair-HasNames :
      (request : GenerationRequest) (first : Option GenerationResult) (left attempts : ℕ)
      (w : World)
      → OnSome HasName first
      → HasNames (repair deps request first left attempts w).0
  unfolding repair call
  repair-HasNames request first zero attempts w h = h
  repair-HasNames request first (suc left) attempts w h =
      after (deps.generate w.calls request) refl
        (repair-HasNames request first left (suc attempts) (call deps request w).1 h)
    where
      after :
          (answer : Result CallFailure GenerationResult)
          → deps.generate w.calls request ≡ answer
          → HasNames (repair deps request first left (suc attempts) (call deps request w).1).0
          → HasNames (repair deps request first (suc left) attempts w).0
      after (err CallFailure.unexpected) e ih = simp (repair, e) tt
      after (err CallFailure.malformed) e ih = simp (repair, e) ih
      after (err CallFailure.connection) e ih = simp (repair, e) h
      after (err CallFailure.timeout) e ih = simp (repair, e) h
      after (err CallFailure.model_not_available) e ih = simp (repair, e) h
      after (err CallFailure.http) e ih = simp (repair, e) h
      after (err CallFailure.deadline) e ih = simp (repair, e) h
      after (ok result) e ih = elim (Option-cases (deps.parse_draft result.raw_content)) [
        | inl q ↦ simp (repair, e, q) ih
        | inr (draft, q) ↦ simp (repair, e, q) (names.generated w.calls request result e)
      ]

  pub generated-HasNames :
      (request : GenerationRequest) (w : World) → HasNames (generated deps request w).0
  unfolding generated call repair_output
  generated-HasNames request w = after (deps.generate w.calls request) refl
    where
      repaired :
          (first : Option GenerationResult) (output : Text)
          → OnSome HasName first
          → HasNames (repair_output deps request first output (call deps request w).1).0
      repaired first output h =
          repair-HasNames (repair_request request output (deps.error_summary output)) first
            deps.settings.schema_repair_retries 1 (call deps request w).1 h

      after :
          (answer : Result CallFailure GenerationResult)
          → deps.generate w.calls request ≡ answer
          → HasNames (generated deps request w).0
      after (err CallFailure.unexpected) e = simp (generated, e) tt
      after (err CallFailure.malformed) e = simp (generated, e) (repaired none [] tt)
      after (err CallFailure.connection) e = simp (generated, e) tt
      after (err CallFailure.timeout) e = simp (generated, e) tt
      after (err CallFailure.model_not_available) e = simp (generated, e) tt
      after (err CallFailure.http) e = simp (generated, e) tt
      after (err CallFailure.deadline) e = simp (generated, e) tt
      after (ok result) e = elim (Option-cases (deps.parse_draft result.raw_content)) [
        | inl q ↦
            simp (generated, e, q)
              (repaired (some result) result.raw_content (names.generated w.calls request result e))
        | inr (draft, q) ↦ simp (generated, e, q) (names.generated w.calls request result e)
      ]
