-- ===== src/Study/Graph/Run.antt =====
-- The edges of `build_study_graph` of src/study/graph.py, and LangGraph's walk along them, with the
-- 25 steps that LangGraph allows as fuel.

use lexicon_revision.Prelude.{
  ℕ, zero, suc, Text, Option, none, some, is_some, ok, err, and_then, if◌then◌else◌,
}
use lexicon_revision.Study.Requests.{
  StudyRequest, QueryPlan, Workflow, intent_registry, content_retrieval, StudyResponse,
}
use lexicon_revision.Study.Service.{Deps}
use lexicon_revision.Study.Graph.State.{StudyGraphState, initial, recursion_limit, Step}
use lexicon_revision.Study.Graph.Retrieval.{demand, plan_node, direct_response_node, retrieve_node}
use lexicon_revision.Study.Graph.Reflection.{grade_node, reflect_node}
use lexicon_revision.Study.Graph.Answering.{pack_node, generate_node, validate_node, respond_node}

pub data Node : Type 0 where
  plan direct_response retrieve grade reflect pack generate validate respond : Node

-- "respond" once there is a response
unfoldable pub respond_or : Node → Option StudyResponse → Node
respond_or other none = other
respond_or other (some response) = respond

unfoldable pub route_after_plan : Option QueryPlan → Node
route_after_plan p =
    elim (intent_registry (elim p [ none ↦ content_retrieval | some q ↦ q.intent ])).workflow [
      | Workflow.retrieval ↦ retrieve
      | Workflow.direct_response ↦ direct_response
    ]

unfoldable pub route_after_grade : StudyGraphState → Node
route_after_grade s =
    respond_or
      (if is_some s.graded_chunks
        then pack
        else if is_some s.requery_semantic
        then pack
        else reflect)
      s.response

-- the edge that leaves a node, `none` for the end
unfoldable pub next : Node → StudyGraphState → Option Node
next plan s = some (route_after_plan s.plan)
next direct_response s = some respond
next retrieve s = some (respond_or grade s.response)
next grade s = some (route_after_grade s)
next reflect s = some (respond_or retrieve s.response)
next pack s = some (respond_or generate s.response)
next generate s = some (respond_or validate s.response)
next validate s = some respond
next respond s = none

module _ (deps : Deps) where
  unfoldable pub run_node : Node → StudyGraphState → Step StudyGraphState
  run_node plan = plan_node deps
  run_node direct_response = direct_response_node deps
  run_node retrieve = retrieve_node deps
  run_node grade = grade_node deps
  run_node reflect = reflect_node deps
  run_node pack = pack_node deps
  run_node generate = generate_node deps
  run_node validate = validate_node deps
  run_node respond = respond_node deps

  unfoldable pub follow : ℕ → Option Node → StudyGraphState → Step StudyGraphState
  follow steps none s w = (ok s, w)
  follow zero (some node) s w = (err recursion_limit, w)
  follow (suc steps) (some node) s w =
      and_then (run_node node s w) (λ t v. follow steps (next node t) t v)

  -- `StudyService.orchestrate`, where `request_id` is the given one or, without one, that of `uuid4()`
  unfoldable pub orchestrate : StudyRequest → Text → Option ℕ → Step StudyResponse
  orchestrate request request_id deadline w =
      and_then (follow 25 (some plan) (initial request request_id deadline) w)
        (λ s. demand s.response (λ response v. (ok response, v)))
