-- ===== src/Study/Graph/Stages/Retrieving.antt =====
-- What the nodes `plan`, `direct_response` and `retrieve` of src/study/graph.py leave.
use lexicon_revision.Prelude.{
  ℕ, Text, Option, none, some, List, [], ◌∷◌, ◌≡◌, refl, ◌⊎◌, inl, inr, Result, ok, err,
}
use lexicon_revision.Study.Requests.{FilterCondition, QueryPlan, PlanningMetadata, SearchResult}
use lexicon_revision.Study.Service.{Deps, SearchFailure}
use lexicon_revision.Study.Graph.State.{StudyGraphState, World}
use lexicon_revision.Study.Graph.Retrieval.{
  demand, filters_or_none, effective_plan, plan_node, direct_response_node, search_first, retrieve,
  accept_results, retrieve_node,
}
use lexicon_revision.Study.Graph.Stages.{
  Leaves, Leaves-logged, IsDone, IsOpen, IsPlanned, IsRetrieved, IsFirstPass, IsSamePass,
  IsSupported-direct_response, IsSupported-empty_response, finish-Leaves,
}
use lexicon_revision.Study.Graph.Naming.{
  IsNamed, HasIds, direct_response-valid, empty_response-valid,
}

-- what `retrieve` leaves: a response, or results in the same pass
abbrev pub IsSearched : Deps → StudyGraphState → StudyGraphState → Type 0
IsSearched deps s t = IsDone t ⊎ (IsRetrieved deps t × IsSamePass s t)

-- no query of its own, or one
abbrev pub IsSingle : Option (List Text) → Type 0
IsSingle queries = (queries ≡ none) ⊎ ((query : Text) × (queries ≡ some (query ∷ [])))

module _ (deps : Deps) where
  pub plan_node-IsPlanned :
      (s : StudyGraphState) (w : World)
      → IsOpen deps s
      → IsFirstPass s
      → Leaves deps (λ t. IsPlanned deps t × IsFirstPass t) w.logged (plan_node deps s w)
  unfolding plan_node
  plan_node-IsPlanned s w h k = (((h, (_, refl), (_, refl)), k), refl)

  pub direct_response_node-IsDone :
      (s : StudyGraphState) (w : World)
      → IsPlanned deps s
      → Leaves deps IsDone w.logged (direct_response_node deps s w)
  unfolding direct_response_node demand
  direct_response_node-IsDone s w (h, p, (m, e)) =
      simp (direct_response_node, demand, e)
        (finish-Leaves deps IsDone s _ w
          (λ n. direct_response-valid deps n s.request s.request_id _ m (h.1 n).0)
          (_, refl, IsSupported-direct_response deps s.request s.request_id _ m))

  accept_results-IsSearched :
      (s : StudyGraphState) (planning : PlanningMetadata)
      (found : Result SearchFailure (List SearchResult)) (w : World)
      → IsPlanned deps s
      → s.graded_chunks ≡ none
      → (IsNamed deps → (results : List SearchResult) → found ≡ ok results → HasIds results)
      → Leaves deps (IsSearched deps s) w.logged (accept_results deps s planning found w)
  unfolding accept_results
  accept_results-IsSearched s planning (err SearchFailure.invalid_metadata_filter) w h g ids =
      (inl refl, refl)
  accept_results-IsSearched s planning (err SearchFailure.other) w h g ids =
      finish-Leaves deps (IsSearched deps s) s _ w
        (λ n. empty_response-valid deps n _ _ _ _ _ _ (h.0.1 n).0)
        (inl (_, refl, IsSupported-empty_response deps _ _ _ _ _ _))
  accept_results-IsSearched s planning (ok []) w h g ids =
      finish-Leaves deps (IsSearched deps s) s _ w
        (λ n. empty_response-valid deps n _ _ _ _ _ _ (h.0.1 n).0)
        (inl (_, refl, IsSupported-empty_response deps _ _ _ _ _ _))
  accept_results-IsSearched s planning (ok (r ∷ rs)) w h g ids = (
    inr (
      (
        ((h.0.0, λ n. ((h.0.1 n).0, ids n (r ∷ rs) refl, (h.0.1 n).2)), h.1, h.2),
        (r ∷ rs, refl, rw g tt),
      ),
      (refl, refl, refl),
    ),
    refl,
  )

  search_first-HasIds :
      (names : IsNamed deps) (queries : List Text) (filters : List FilterCondition)
      (collection : Text) (limit : ℕ) (w : World) (results : List SearchResult)
      → (search_first deps queries filters collection limit w).0 ≡ ok results
      → HasIds results
  unfolding search_first
  search_first-HasIds names [] filters collection limit w results e = absurd (cc e)
  search_first-HasIds names (query ∷ rest) filters collection limit w results e =
      names.found w.searches query collection (filters_or_none filters) limit results e

  search_first-logged :
      (queries : List Text) (filters : List FilterCondition) (collection : Text) (limit : ℕ)
      (w : World)
      → (search_first deps queries filters collection limit w).1.logged ≡ w.logged
  unfolding search_first
  search_first-logged [] filters collection limit w = refl
  search_first-logged (query ∷ rest) filters collection limit w = refl

  searched :
      (s : StudyGraphState) (planning : PlanningMetadata) (p : QueryPlan) (w : World)
      → IsPlanned deps s
      → s.graded_chunks ≡ none
      → Leaves deps (IsSearched deps s) w.logged (
          accept_results deps s planning
            (retrieve deps p s.hard_filters s.request.collection s.request.top_k w).0
            (retrieve deps p s.hard_filters s.request.collection s.request.top_k w).1)
  unfolding retrieve
  searched s planning p w h g =
      let found =
        search_first deps p.semantic_queries s.hard_filters s.request.collection s.request.top_k
          w in
      Leaves-logged deps (IsSearched deps s) found.1.logged w.logged
        (accept_results deps s planning found.0 found.1)
        (search_first-logged p.semantic_queries s.hard_filters s.request.collection s.request.top_k
          w)
        (accept_results-IsSearched s planning found.0 found.1 h g (λ n results.
          search_first-HasIds n p.semantic_queries s.hard_filters s.request.collection
            s.request.top_k w results))

  pub retrieve_node-IsSearched :
      (s : StudyGraphState) (w : World)
      → IsPlanned deps s
      → IsSingle s.requery_semantic
      → s.graded_chunks ≡ none
      → Leaves deps (IsSearched deps s) w.logged (retrieve_node deps s w)
  unfolding retrieve_node demand effective_plan
  retrieve_node-IsSearched s w (h, (p, e), (m, f)) (inl g) n =
      simp (retrieve_node, e, f, g) (searched s m p w (h, (p, e), (m, f)) n)
  retrieve_node-IsSearched s w (h, (p, e), (m, f)) (inr (query, g)) n =
      simp (retrieve_node, e, f, g)
        (searched s m (record p { semantic_queries = query ∷ [] }) w (h, (p, e), (m, f)) n)
