-- ===== src/Search/Service/Ranking.antt =====
-- What `search` of src/search/pg_service.py returns of what the index and the reranker found.
use mathlib.Core.List.{Perm}
use mathlib.Core.List.Perm
use lexicon_revision.Prelude.{
  ℕ, suc, ◌≤◌, leb, nat_eq, nat_eq_iff, Text, length, take, map, Bool-cases, All, All-map, Bool,
  true, false, Option, none, some, List, [], ◌∷◌, Result, ok, >>=-ok, ok_injective, ◌≡◌, ◌⊎◌, ◌∙◌,
  inl, inr, refl, sym, ap, arith,
}
use lexicon_revision.Study.Requests.{SearchResult}
use lexicon_revision.Search.Service.{
  SearchError, PgChunkRow, SearchBackend, insert_pair, sort_pairs, zip_scores, with_scores,
  own_scores, above_min, rerank_rows, rank_rows, min_score_of, respond,
}
use lexicon_revision.Search.Service.Collecting.{results_of, collect-take}

-- The scores fall.
abbrev pub IsFalling : List (PgChunkRow × ℕ) → Type 0
IsFalling [] = Unit
IsFalling (pair ∷ pairs) = All (λ p. p.1 ≤ pair.1) pairs × IsFalling pairs

insert_pair-All :
    (P : PgChunkRow × ℕ → Type 0) (pair : PgChunkRow × ℕ) (pairs : List (PgChunkRow × ℕ))
    → P pair
    → All P pairs
    → All P (insert_pair pair pairs)
unfolding insert_pair
insert_pair-All P pair [] p h = (p, tt)
insert_pair-All P pair (q ∷ pairs) p (k, h) = elim (Bool-cases (leb q.1 pair.1)) [
  | inl e ↦ rw e (p, (k, h))
  | inr e ↦ rw e (k, insert_pair-All P pair pairs p h)
]

insert_pair-IsFalling :
    (pair : PgChunkRow × ℕ) (pairs : List (PgChunkRow × ℕ))
    → IsFalling pairs
    → IsFalling (insert_pair pair pairs)
unfolding insert_pair
insert_pair-IsFalling pair [] h = (tt, tt)
insert_pair-IsFalling pair (q ∷ pairs) (k, h) = elim (Bool-cases (leb q.1 pair.1)) [
  | inl e ↦
      (let le : q.1 ≤ pair.1 = ground arith in
        rw e
          ((le, All-map (λ p. p.1 ≤ q.1) (λ p. p.1 ≤ pair.1) (λ p x. omega arith) pairs k), (k, h)))
  | inr e ↦
      (let le : pair.1 ≤ q.1 = ground arith in
        rw e (insert_pair-All (λ p. p.1 ≤ q.1) pair pairs le k, insert_pair-IsFalling pair pairs h))
]

insert_pair-perm :
    (pair : PgChunkRow × ℕ) (pairs : List (PgChunkRow × ℕ))
    → Perm (insert_pair pair pairs) (pair ∷ pairs)
unfolding insert_pair
insert_pair-perm pair [] = Perm.refl (pair ∷ [])
insert_pair-perm pair (q ∷ pairs) = elim (Bool-cases (leb q.1 pair.1)) [
  | inl e ↦ rw e (Perm.refl (pair ∷ q ∷ pairs))
  | inr e ↦ rw e (Perm.trans (Perm.cons q (insert_pair-perm pair pairs)) (Perm.swap pair q pairs))
]

-- The order of the pairs: their permutation by falling score.
abbrev pub IsRanking : List (PgChunkRow × ℕ) → List (PgChunkRow × ℕ) → Type 0
IsRanking pairs ranking = Perm ranking pairs × IsFalling ranking

sort_pairs-IsRanking : (pairs : List (PgChunkRow × ℕ)) → IsRanking pairs (sort_pairs pairs)
unfolding sort_pairs
sort_pairs-IsRanking [] = (Perm.refl [], tt)
sort_pairs-IsRanking (pair ∷ pairs) =
    let (p, f) = sort_pairs-IsRanking pairs in
    (
      Perm.trans (insert_pair-perm pair (sort_pairs pairs)) (Perm.cons pair p),
      insert_pair-IsFalling pair (sort_pairs pairs) f,
    )

with_scores-ok :
    (rows : List PgChunkRow) (scores : List ℕ) (r : List (PgChunkRow × ℕ) × Bool)
    → with_scores rows scores ≡ ok r
    → (length scores ≡ length rows)
      × (◌≡◌ {A = List (PgChunkRow × ℕ) × Bool} (sort_pairs (zip_scores rows scores), true) r)
unfolding with_scores
with_scores-ok rows scores r h = elim (Bool-cases (nat_eq (length scores) (length rows))) [
  | inl e ↦ ((nat_eq_iff (length scores) (length rows)).0 e, ok_injective (rw e at h))
  | inr e ↦ absurd (mismatch e)
]
  where
    mismatch : nat_eq (length scores) (length rows) ≡ false → ⊥
    mismatch e = cc (rw e at h)

module _ {V : Type 0} (backend : SearchBackend V) where
  -- the pairs that the reranker's scores put in order, where it is asked for and there is one
  abbrev pub IsReranked : Text → List PgChunkRow → Bool → List (PgChunkRow × ℕ) → Type 0
  IsReranked query rows rerank ranking =
      (rerank ≡ true)
      × ((reranker : Text → List Text → Result SearchError (List ℕ)) × (scores : List ℕ)
          × (backend.reranker ≡ some reranker)
          × (reranker query (map (λ row. row.text) rows) ≡ ok scores)
          × (length scores ≡ length rows)
          × IsRanking (zip_scores rows scores) ranking)

  -- or else the pairs of the index
  abbrev pub IsOrdered : Text → List PgChunkRow → Bool → List (PgChunkRow × ℕ) → Bool → Type 0
  IsOrdered query rows rerank ranking reranked =
      ((reranked ≡ true) × IsReranked query rows rerank ranking)
      ⊎ ((reranked ≡ false)
          × ((rerank ≡ false) ⊎ (backend.reranker ≡ none))
          × (ranking ≡ own_scores rows))

  -- what is returned of the rows that the index found
  pub record IsSelected (query collection : Text) (limit : ℕ) (rerank : Bool)
      (rows : List PgChunkRow) (results : List SearchResult) : Type 0 where
    pub ranking : List (PgChunkRow × ℕ)
    pub reranked : Bool
    pub min_score : Option ℕ
    pub ordered : IsOrdered query rows rerank ranking reranked
    pub threshold : min_score_of backend collection reranked ≡ ok min_score
    pub selected : results ≡ take limit (results_of (above_min min_score ranking))

  rerank_rows-IsOrdered :
      (query : Text) (rows : List PgChunkRow) (rerank : Bool) (ranking : List (PgChunkRow × ℕ))
      (reranked : Bool)
      → rank_rows backend query rerank rows ≡ ok (ranking, reranked)
      → IsOrdered query rows rerank ranking reranked
  unfolding rank_rows rerank_rows
  rerank_rows-IsOrdered query rows false ranking reranked h =
      let e : (own_scores rows, false) ≡ (ranking, reranked) = cc h in
      inr (
        ap (λ (p : List (PgChunkRow × ℕ) × Bool). p.1) (sym e),
        inl refl,
        ap (λ (p : List (PgChunkRow × ℕ) × Bool). p.0) (sym e),
      )
  rerank_rows-IsOrdered query rows true ranking reranked h = from backend.reranker refl h
    where
      from :
          (o : Option (Text → List Text → Result SearchError (List ℕ)))
          → backend.reranker ≡ o
          → rerank_rows backend query rows o ≡ ok (ranking, reranked)
          → IsOrdered query rows true ranking reranked
      from none e q =
          let r : (own_scores rows, false) ≡ (ranking, reranked) = cc q in
          inr (
            ap (λ (p : List (PgChunkRow × ℕ) × Bool). p.1) (sym r),
            inr e,
            ap (λ (p : List (PgChunkRow × ℕ) × Bool). p.0) (sym r),
          )
      from (some reranker) e q =
          let (scores, s, k) =
            >>=-ok (reranker query (map (λ row. row.text) rows)) _ (ranking, reranked) q in
          let (n, r) = with_scores-ok rows scores (ranking, reranked) k in
          inl (
            ap (λ (p : List (PgChunkRow × ℕ) × Bool). p.1) (sym r),
            (
              refl,
              (
                reranker,
                scores,
                e,
                s,
                n,
                rw (← ap (λ (p : List (PgChunkRow × ℕ) × Bool). p.0) r)
                    (sort_pairs-IsRanking (zip_scores rows scores)),
              ),
            ),
          )

  pub respond-IsSelected :
      (query collection : Text) (n : ℕ) (rerank : Bool) (rows : List PgChunkRow)
      (results : List SearchResult)
      → respond backend query collection (suc n) rerank rows ≡ ok results
      → ((rows ≡ []) × (results ≡ [])) ⊎ IsSelected query collection (suc n) rerank rows results
  unfolding respond
  respond-IsSelected query collection n rerank [] results h = inl (refl, sym (ok_injective h))
  respond-IsSelected query collection n rerank (row ∷ rows) results h =
      let ((ranking, reranked), p, q) =
        >>=-ok (rank_rows backend query rerank (row ∷ rows)) _ results h in
      let (min_score, t, e) = >>=-ok (min_score_of backend collection reranked) _ results q in
      inr (record {
        ranking = ranking;
        reranked = reranked;
        min_score = min_score;
        ordered = rerank_rows-IsOrdered query (row ∷ rows) rerank ranking reranked p;
        threshold = t;
        selected =
            sym (ok_injective e)
            ∙ collect-take (suc n) [] (above_min min_score ranking) n (omega arith);
      })
