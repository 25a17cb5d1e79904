-- ===== src/Study/Graph/Tests.antt =====
-- A service whose search finds one chunk and whose model answers with a citation of it, and one whose
-- grader rejects what is found.
use lexicon_revision.Prelude.{
  contains, nat_HasEq, if◌then◌else◌, text_HasEq, codes, true, none, some, [], ◌∷◌, ok, err,
  ok_injective, ◌≡◌, refl,
}
use lexicon_revision.Study.Models.{question, StudyAnswerDraft, DraftAnswerStatus}
use lexicon_revision.Study.Requests.{GenerationRequest, StudyRequest, SearchResult}
use lexicon_revision.Study.Service.{StudySettings, Deps, PlanningFailure}
use lexicon_revision.Study.Service.{metadata_of, planning_error_category}
use lexicon_revision.Study.Service.Responses.{
  plan_request, empty_response, empty_retrieval, generation_metadata, is_valid_response,
  is_valid_generation,
}
use lexicon_revision.Study.Graph.State.{validation_error}
use lexicon_revision.Study.Graph.Retrieval.{
  demand, finish, effective_plan, filters_or_none, plan_node, search_first, retrieve,
  accept_results, retrieve_node,
}
use lexicon_revision.Study.Graph.Naming.{IsNamed}
use lexicon_revision.Study.Graph.Run.{run_node, next, follow, route_after_plan}
use lexicon_revision.Study.Graph.State.{World}
use lexicon_revision.Study.Graph.Answering.{generated}
use lexicon_revision.Study.Graph.Attempts.{IsCounted, generated-IsCounted}
use lexicon_revision.Study.Graph.Run.{orchestrate}
use lexicon_revision.Study.Graph.Ending.{IsAnswered, orchestrate-IsAnswered}

abbrev settings : StudySettings
settings = record {
  provider = codes "local";
  model = codes "m";
  prompt_version = codes "v";
  budget_tokens = 100;
  max_single_chunk_tokens = 50;
  runtime = none;
  request_timeout = 60;
  schema_repair_retries = 1;
  reflection_enabled = true;
  step_timeout = 6;
  grader_excerpt_chars = 600;
  requery_min_remaining = 28;
}

abbrev found : SearchResult
found = record {
  chunk_id = codes "q1";
  chunk_level = question;
  parent_chunk_id = none;
  sub_question_label = none;
  text = codes "Prove that trees have one edge less.";
  score = 7;
}

abbrev draft : StudyAnswerDraft
draft = record {
  answer_status = DraftAnswerStatus.ok;
  overview = codes "Trees.";
  patterns =
      record {
        label = codes "trees";
        summary = codes "edges";
        supporting_chunk_ids = codes "q1" ∷ [];
      }
      ∷ [];
  cited_sources = [];
  limitations = [];
}

abbrev deps : Deps
deps = record {
  settings = settings;
  json_schema_output = true;
  plan_query = λ query filters. err PlanningFailure.deadline;
  search = λ n query collection filters limit. ok (found ∷ []);
  generate = λ n request.
      ok (record { raw_content = codes "text"; model = codes "m"; provider = codes "local" });
  clock = λ n. n;
  parse_grading = λ text. none;
  parse_reformulation = λ text. none;
  parse_draft = λ text. some draft;
  error_summary = λ text. [];
  grading_prompt = λ query chunks. [];
  reformulation_prompt = λ query critique. [];
  answer_prompt = λ query queries chunks guidance. [];
  lower = λ text. text;
}

abbrev request : StudyRequest
request = record { query = codes "trees"; collection = codes "exams"; filters = []; top_k = 15 }

abbrev start : World
start = record { calls = 0; searches = 0; readings = 0; logged = [] }

deps-IsNamed : IsNamed deps
deps-IsNamed = record {
  provider = refl;
  model = refl;
  prompt_version = refl;
  generated = λ calls request result e. rw (← ok_injective e) (refl, refl);
  found = λ searches query collection filters limit results e. rw (← ok_injective e) (refl, tt);
}

orchestrate-IsAnswered_example :
    IsAnswered deps [] (orchestrate deps request (codes "r1") none start)
orchestrate-IsAnswered_example = orchestrate-IsAnswered deps request (codes "r1") none start refl

-- a service without the name of a model, whose search finds nothing
abbrev nameless : Deps
nameless = record deps {
  settings = record settings { model = [] };
  search = λ n query collection filters limit. ok [];
}

not_valid : (orchestrate nameless request (codes "r1") none start).0 ≡ err validation_error
unfolding orchestrate follow run_node next plan_node plan_request route_after_plan retrieve_node
    demand effective_plan retrieve search_first accept_results finish empty_response empty_retrieval
    generation_metadata is_valid_response is_valid_generation metadata_of planning_error_category
    filters_or_none
not_valid = refl

-- a provider that sends no draft at first
abbrev stammering : Deps
stammering = record deps {
  generate =
      λ n r. ok (record { raw_content = n ∷ []; model = codes "m"; provider = codes "local" });
  parse_draft = λ text. if contains text 0 then none else some draft;
}

abbrev answer_request : GenerationRequest
answer_request = record { messages = []; response_schema = none; max_tokens = none; timeout = 60 }

generated-IsCounted_example : IsCounted 0 2 start (generated stammering answer_request start)
generated-IsCounted_example = generated-IsCounted stammering answer_request start
