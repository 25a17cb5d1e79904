-- ===== src/Search/Service/Collecting.antt =====
-- Which results the last loop of `search` in src/search/pg_service.py keeps.
use lexicon_revision.Prelude.{
  ℕ, zero, suc, ◌+◌, nat_eq, length, length-append, take, append_assoc, append-nil, Option-cases,
  true, false, none, some, List, [], ◌∷◌, ◌++◌, ◌≡◌, ◌∙◌, inl, inr, refl, sym, arith,
}
use lexicon_revision.Study.Requests.{SearchResult}
use lexicon_revision.Search.Service.{PgChunkRow, level_of, result_of, collect}

-- the results of the pairs whose row has a valid level
pub results_of : List (PgChunkRow × ℕ) → List SearchResult
results_of [] = []
results_of (pair ∷ pairs) = elim (level_of pair.0.chunk_level) [
  | none ↦ results_of pairs
  | some level ↦ result_of pair.0 level pair.1 ∷ results_of pairs
]

-- The loop returns the first results, up to the limit.
pub collect-take :
    (limit : ℕ) (results : List SearchResult) (pairs : List (PgChunkRow × ℕ)) (left : ℕ)
    → length results + suc left ≡ limit
    → collect limit results pairs ≡ results ++ take (suc left) (results_of pairs)
unfolding collect results_of
collect-take limit results [] left h = sym (append-nil results)
collect-take limit results (pair ∷ pairs) left h =
    elim (Option-cases (level_of pair.0.chunk_level)) [
      | inl e ↦ rw (e, collect, results_of) (collect-take limit results pairs left h)
      | inr (level, e) ↦
          rw (e, collect, results_of)
            (one_more (result_of pair.0 level pair.1) left h
              (λ r n q. collect-take limit r pairs n q))
    ]
  where
    one_more :
        (r : SearchResult) (n : ℕ)
        → length results + suc n ≡ limit
        → ((rs : List SearchResult) (k : ℕ)
            → length rs + suc k ≡ limit
            → collect limit rs pairs ≡ rs ++ take (suc k) (results_of pairs))
        → (elim (nat_eq (length (results ++ r ∷ [])) limit) [
          | true ↦ results ++ r ∷ []
          | false ↦ collect limit (results ++ r ∷ []) pairs
        ])
          ≡ results ++ r ∷ take n (results_of pairs)
    one_more r zero q ih =
        let full : nat_eq (length (results ++ r ∷ [])) limit ≡ true =
          ground (arith, length-append results (r ∷ [])) in
        rw full refl
    one_more r (suc n) q ih =
        let room : nat_eq (length (results ++ r ∷ [])) limit ≡ false =
          ground (arith, length-append results (r ∷ [])) in
        rw room (
          ih (results ++ r ∷ []) n (omega (arith, length-append results (r ∷ [])))
          ∙ append_assoc results (r ∷ []) (take (suc n) (results_of pairs)))
