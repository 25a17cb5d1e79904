-- ===== src/Study/Planner/Limits.antt =====
-- Which drafts become plans in src/study/planning/planner.py.
use lexicon_revision.Prelude.{
  ltb, suc, nat_eq, nat_eq_iff, ◌≤◌, Text, strip, words, length, map, All, true, false, Bool-cases,
  List, [], ◌∷◌, is_empty, ok, err, ok_injective, >>=-ok, returned, raised, run, ◌≡◌, refl, sym, ap,
  ◌∙◌, ◌↔◌, inl, inr, arith,
}
use lexicon_revision.Study.Requests.{QueryPlan}
use lexicon_revision.Study.Planner.{
  QueryPlanDraft, InvalidPlan, check_queries, guidance_of, check_guidance, is_valid_plan,
  query_plan, build_plan,
}

-- not blank, and of at most 40 words
abbrev pub IsQuery : Text → Type 0
IsQuery query = (is_empty query ≡ false) × (length (words query) ≤ 40)

-- The draft is within the limits, once its texts are stripped.
abbrev pub IsWithinLimits : QueryPlanDraft → Type 0
IsWithinLimits draft =
    All IsQuery (map strip draft.semantic_queries) × (length (words (guidance_of draft)) ≤ 100)

check_queries_ok : (queries : List Text) → All IsQuery queries → check_queries queries ≡ ok queries
unfolding check_queries
check_queries_ok [] h = refl
check_queries_ok (q ∷ qs) ((e, l), h) = simp (check_queries, e, within, check_queries_ok qs h)
  where
    within : ltb 40 (length (words q)) ≡ false
    within = ground arith

check_queries-All :
    (queries checked : List Text) → check_queries queries ≡ ok checked → All IsQuery queries
unfolding check_queries
check_queries-All [] checked h = tt
check_queries-All (q ∷ qs) checked h = elim (Bool-cases (is_empty q)) [
  | inl e ↦ absurd (refused (rw e at h))
  | inr e ↦ elim (Bool-cases (ltb 40 (length (words q)))) [
    | inl l ↦ absurd (refused (rw (e, l) at h))
    | inr l ↦ elim (run (check_queries qs)) [
      | raised x r ↦ absurd (refused (rw (e, l, r) at h))
      | returned rest r ↦ ((e, ground arith), check_queries-All qs rest r)
    ]
  ]
]
  where
    refused : {x : InvalidPlan} → err x ≡ ok checked → ⊥
    refused p = cc

-- the plan that a draft within the limits becomes
abbrev pub plan_of : QueryPlanDraft → Text → Text → QueryPlan
plan_of draft raw_query planner_version = record {
  planner_version = planner_version;
  original_query = raw_query;
  semantic_queries = map strip draft.semantic_queries;
  intent = draft.intent;
  generation_guidance = guidance_of draft;
}

-- the constructor takes the plan
abbrev IsTaken : QueryPlanDraft → Text → Text → Type 0
IsTaken draft raw_query planner_version =
    (is_empty planner_version ≡ false)
    × (is_empty raw_query ≡ false)
    × (length draft.semantic_queries ≡ 1)

-- what a draft, a raw query and a version must be to become a plan
abbrev pub IsPlannable : QueryPlanDraft → Text → Text → Type 0
IsPlannable draft raw_query planner_version =
    IsWithinLimits draft × IsTaken draft raw_query planner_version

length-map-strip : (queries : List Text) → length (map strip queries) ≡ length queries
length-map-strip [] = refl
length-map-strip (q ∷ qs) = ap suc (length-map-strip qs)

is_valid_plan-IsTaken :
    (draft : QueryPlanDraft) (raw_query planner_version : Text)
    → (is_valid_plan (plan_of draft raw_query planner_version) ≡ true)
      ↔ IsTaken draft raw_query planner_version
unfolding is_valid_plan
is_valid_plan-IsTaken draft raw_query version = (forth, back)
  where
    one : length (map strip draft.semantic_queries) ≡ length draft.semantic_queries
    one = length-map-strip draft.semantic_queries

    forth : is_valid_plan (plan_of draft raw_query version) ≡ true → IsTaken draft raw_query version
    forth h =
        let counted : nat_eq (length (map strip draft.semantic_queries)) 1 ≡ true = ground arith in
        (
          ground arith,
          ground arith,
          sym one ∙ (nat_eq_iff (length (map strip draft.semantic_queries)) 1).0 counted,
        )

    back : IsTaken draft raw_query version → is_valid_plan (plan_of draft raw_query version) ≡ true
    back (v, q, l) =
        rw (v, q, (nat_eq_iff (length (map strip draft.semantic_queries)) 1).1 (one ∙ l)) refl

query_plan-valid : (p q : QueryPlan) → query_plan p ≡ ok q → is_valid_plan p ≡ true
unfolding query_plan
query_plan-valid p q h = elim (Bool-cases (is_valid_plan p)) [
  | inl e ↦ e
  | inr e ↦ absurd (cc (rw e at h))
]

-- A plan is built exactly if the draft's one query, stripped, is not blank and has at most 40 words,
-- its guidance, which only an intent to retrieve content keeps, has at most 100, and neither the raw
-- query nor the version is empty; and then the plan has the stripped texts.
pub build_plan-IsWithinLimits :
    (draft : QueryPlanDraft) (raw_query planner_version : Text)
    → (((plan : QueryPlan) × (build_plan draft raw_query planner_version ≡ ok plan))
        ↔ IsPlannable draft raw_query planner_version)
      × (IsPlannable draft raw_query planner_version
          → build_plan draft raw_query planner_version
            ≡ ok (plan_of draft raw_query planner_version))
unfolding build_plan check_guidance query_plan
build_plan-IsWithinLimits draft raw_query version = ((forth, λ h. (_, back h)), back)
  where
    back :
        IsPlannable draft raw_query version
        → build_plan draft raw_query version ≡ ok (plan_of draft raw_query version)
    back ((h, g), t) =
        let few : ltb 100 (length (words (guidance_of draft))) ≡ false = ground arith in
        rw
          (
            build_plan,
            check_queries_ok (map strip draft.semantic_queries) h,
            few,
            (is_valid_plan-IsTaken draft raw_query version).1 t,
          )
          refl

    forth :
        (plan : QueryPlan) × (build_plan draft raw_query version ≡ ok plan)
        → IsPlannable draft raw_query version
    forth (plan, e) =
        let (queries, q, e1) = >>=-ok (check_queries (map strip draft.semantic_queries)) _ plan e in
        let (guidance, g, e2) = >>=-ok (check_guidance (guidance_of draft)) _ plan e1 in
        (
          (check_queries-All (map strip draft.semantic_queries) queries q, (few guidance g).0),
          taken queries guidance q g e2,
        )
      where
        few :
            (guidance : Text)
            → check_guidance (guidance_of draft) ≡ ok guidance
            → (length (words (guidance_of draft)) ≤ 100) × (guidance_of draft ≡ guidance)
        few guidance g = elim (Bool-cases (ltb 100 (length (words (guidance_of draft))))) [
          | inl l ↦ absurd (cc (rw (check_guidance, l) at g))
          | inr l ↦ (ground arith, ok_injective (rw (check_guidance, l) at g))
        ]

        taken :
            (queries : List Text) (guidance : Text)
            → check_queries (map strip draft.semantic_queries) ≡ ok queries
            → check_guidance (guidance_of draft) ≡ ok guidance
            → query_plan (record {
              planner_version = version;
              original_query = raw_query;
              semantic_queries = queries;
              intent = draft.intent;
              generation_guidance = guidance;
            })
              ≡ ok plan
            → IsTaken draft raw_query version
        taken queries guidance q g t =
            let same : queries ≡ map strip draft.semantic_queries =
              ok_injective (sym q ∙ check_queries_ok _ (check_queries-All _ queries q)) in
            (is_valid_plan-IsTaken draft raw_query version).0 (
              query_plan-valid (plan_of draft raw_query version) plan
                (rw (same, ← (few guidance g).1) at t))
