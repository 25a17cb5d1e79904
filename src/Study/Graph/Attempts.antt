-- ===== src/Study/Graph/Attempts.antt =====
-- The calls of the provider in the node `generate` of src/study/graph.py.
use lexicon_revision.Prelude.{
  ℕ, Text, [], refl, zero, suc, ◌+◌, ◌≤◌, Option, none, some, Option-cases, ◌≡◌, inl, inr, Result,
  ok, err, arith,
}
use lexicon_revision.Study.Requests.{GenerationRequest, GenerationResult}
use lexicon_revision.Study.Service.{Deps, CallFailure}
use lexicon_revision.Study.Graph.State.{World, call}
use lexicon_revision.Study.Graph.Answering.{
  Generated, drafted, failed, raised, repair, repair_output, repair_request, generated,
}

-- The attempts that the outcome reports count the calls behind `before` earlier ones, and there were at
-- most `most` calls.
abbrev pub IsCounted : ℕ → ℕ → World → Generated × World → Type 0
IsCounted before most w (drafted draft result n, v) =
    (v.calls + before ≡ w.calls + n) × (v.calls ≤ w.calls + most)
IsCounted before most w (failed category n first, v) =
    (v.calls + before ≡ w.calls + n) × (v.calls ≤ w.calls + most)
IsCounted before most w (raised, v) = (v.calls ≤ w.calls + most)

later :
    (before most : ℕ) (w u : World) (r : Generated × World)
    → u.calls ≡ suc w.calls
    → IsCounted (suc before) most u r
    → IsCounted before (suc most) w r
later before most w u (drafted d a n, v) e (p, q) = (omega arith, omega arith)
later before most w u (failed c n a, v) e (p, q) = (omega arith, omega arith)
later before most w u (raised, v) e q = omega arith

module _ (deps : Deps) where
  IsCounted-repair :
      (request : GenerationRequest) (first : Option GenerationResult) (left attempts : ℕ)
      (w : World)
      → IsCounted attempts left w (repair deps request first left attempts w)
  unfolding repair call
  IsCounted-repair request first zero attempts w = (omega arith, omega arith)
  IsCounted-repair request first (suc left) attempts w =
      after (deps.generate w.calls request) refl (
        later attempts left w (call deps request w).1
          (repair deps request first left (suc attempts) (call deps request w).1) refl
          (IsCounted-repair request first left (suc attempts) (call deps request w).1))
    where
      after :
          (answer : Result CallFailure GenerationResult)
          → deps.generate w.calls request ≡ answer
          → IsCounted attempts
              (suc left)
              w
              (repair deps request first left (suc attempts) (call deps request w).1)
          → IsCounted attempts (suc left) w (repair deps request first (suc left) attempts w)
      after (err CallFailure.unexpected) e ih = simp (repair, e) (omega arith)
      after (err CallFailure.malformed) e ih = simp (repair, e) ih
      after (err CallFailure.connection) e ih = simp (repair, e) (omega arith, omega arith)
      after (err CallFailure.timeout) e ih = simp (repair, e) (omega arith, omega arith)
      after (err CallFailure.model_not_available) e ih = simp (repair, e) (omega arith, omega arith)
      after (err CallFailure.http) e ih = simp (repair, e) (omega arith, omega arith)
      after (err CallFailure.deadline) e ih = simp (repair, e) (omega arith, omega arith)
      after (ok result) e ih = elim (Option-cases (deps.parse_draft result.raw_content)) [
        | inl q ↦ simp (repair, e, q) ih
        | inr (draft, q) ↦ simp (repair, e, q) (omega arith, omega arith)
      ]

  -- The attempts that a generation reports, in a draft or a failure, are the calls of the provider that
  -- it made, and it makes at most one call more than there are repairs.
  pub generated-IsCounted :
      (request : GenerationRequest) (w : World)
      → IsCounted 0 (suc deps.settings.schema_repair_retries) w (generated deps request w)
  unfolding generated call repair_output
  generated-IsCounted request w = after (deps.generate w.calls request) refl
    where
      repaired :
          (first : Option GenerationResult) (output : Text)
          → IsCounted 0
              (suc deps.settings.schema_repair_retries)
              w
              (repair_output deps request first output (call deps request w).1)
      repaired first output =
          later 0 deps.settings.schema_repair_retries w (call deps request w).1
            (repair_output deps request first output (call deps request w).1) refl
            (IsCounted-repair (repair_request request output (deps.error_summary output)) first
              deps.settings.schema_repair_retries 1 (call deps request w).1)

      after :
          (answer : Result CallFailure GenerationResult)
          → deps.generate w.calls request ≡ answer
          → IsCounted 0 (suc deps.settings.schema_repair_retries) w (generated deps request w)
      after (err CallFailure.unexpected) e = simp (generated, e) (omega arith)
      after (err CallFailure.malformed) e = simp (generated, e) (repaired none [])
      after (err CallFailure.connection) e = simp (generated, e) (omega arith, omega arith)
      after (err CallFailure.timeout) e = simp (generated, e) (omega arith, omega arith)
      after (err CallFailure.model_not_available) e = simp (generated, e) (omega arith, omega arith)
      after (err CallFailure.http) e = simp (generated, e) (omega arith, omega arith)
      after (err CallFailure.deadline) e = simp (generated, e) (omega arith, omega arith)
      after (ok result) e = elim (Option-cases (deps.parse_draft result.raw_content)) [
        | inl q ↦ simp (generated, e, q) (repaired (some result) result.raw_content)
        | inr (draft, q) ↦ simp (generated, e, q) (omega arith, omega arith)
      ]
