-- ===== src/Study/Planner/Tests.antt =====
-- A draft with a query of three words.
use lexicon_revision.Prelude.{codes, ◌≡◌, ◌↔◌, [], ◌∷◌, ok}
use lexicon_revision.Study.Requests.{Intent, QueryPlan}
use lexicon_revision.Study.Planner.{QueryPlanDraft, build_plan}
use lexicon_revision.Study.Planner.Limits.{IsPlannable, plan_of, build_plan-IsWithinLimits}

abbrev draft : QueryPlanDraft
draft = record {
  semantic_queries = codes " balanced search trees" ∷ [];
  intent = Intent.content_retrieval;
  generation_guidance = codes "Give the proofs.";
}

build_plan-IsWithinLimits_example :
    (((plan : QueryPlan) × (build_plan draft (codes "trees?") (codes "v2") ≡ ok plan))
      ↔ IsPlannable draft (codes "trees?") (codes "v2"))
    × (IsPlannable draft (codes "trees?") (codes "v2")
        → build_plan draft (codes "trees?") (codes "v2")
          ≡ ok (plan_of draft (codes "trees?") (codes "v2")))
build_plan-IsWithinLimits_example = build_plan-IsWithinLimits draft (codes "trees?") (codes "v2")
