-- ===== src/Study/Packing/Budget.antt =====
-- `pack_chunks`: the budget is kept, every chunk is packed or omitted, and the choice is maximal.
use lexicon_revision.Prelude.{
  ℕ, ◌+◌, ◌≤◌, ◌<◌, Text, IsIn, IsIn-append_left, IsIn-append_right, All, All-append, ◌≡◌, ◌≢◌,
  refl, ap, sym, ◌⊎◌, ◌↔◌, inl, inr, ◌∙◌, true, false, not, ◌&&◌, List, [], ◌∷◌, ◌++◌, append-nil,
  append_assoc, map, map-append, ltb→lt, is_empty, ltb, Bool-cases, arith,
}
use lexicon_revision.Study.Models.{RankedChunk, PackedChunk, PackingStatus, PackingResult}
use lexicon_revision.Study.Packing.{PackLoop, candidate, place, pack_loop, pack_result, pack_chunks}

-- Two lists that share out a third, in its order.
pub data Shares {ℓ} {A : Type ℓ} : List A → List A → List A → Type ℓ where
  done : Shares [] [] []
  left : {x : A} {ls rs xs : List A} → Shares ls rs xs → Shares (x ∷ ls) rs (x ∷ xs)
  right : {x : A} {ls rs xs : List A} → Shares ls rs xs → Shares ls (x ∷ rs) (x ∷ xs)

module _ {ℓ} {A : Type ℓ} where
  Shares-snoc_left :
      {ls rs xs : List A} (x : A) → Shares ls rs xs → Shares (ls ++ x ∷ []) rs (xs ++ x ∷ [])
  Shares-snoc_left x done = left done
  Shares-snoc_left x (left s) = left (Shares-snoc_left x s)
  Shares-snoc_left x (right s) = right (Shares-snoc_left x s)

  Shares-snoc_right :
      {ls rs xs : List A} (x : A) → Shares ls rs xs → Shares ls (rs ++ x ∷ []) (xs ++ x ∷ [])
  Shares-snoc_right x done = right done
  Shares-snoc_right x (left s) = left (Shares-snoc_right x s)
  Shares-snoc_right x (right s) = right (Shares-snoc_right x s)

  Shares-none : (xs : List A) → Shares [] xs xs
  Shares-none [] = done
  Shares-none (x ∷ xs) = right (Shares-none xs)

-- the values of what is shared out are shared out
Shares-map {ℓ κ} :
    {A : Type ℓ} {B : Type κ} (f : A → B) {ls rs xs : List A}
    → Shares ls rs xs
    → Shares (map f ls) (map f rs) (map f xs)
Shares-map f done = done
Shares-map f (left s) = left (Shares-map f s)
Shares-map f (right s) = right (Shares-map f s)

unfoldable pub total_tokens : List PackedChunk → ℕ
total_tokens [] = 0
total_tokens (p ∷ ps) = p.estimated_tokens + total_tokens ps

total_tokens-append :
    (xs ys : List PackedChunk) → total_tokens (xs ++ ys) ≡ total_tokens xs + total_tokens ys
unfolding total_tokens
total_tokens-append [] ys = omega arith
total_tokens-append (x ∷ xs) ys = omega (arith, total_tokens-append xs ys)

abbrev pub packed_ids : List PackedChunk → List Text
packed_ids ps = map (λ p. p.chunk.chunk_id) ps

abbrev pub ranked_ids : List RankedChunk → List Text
ranked_ids cs = map (λ c. c.chunk_id) cs

abbrev pub packed_chunks : List PackedChunk → List RankedChunk
packed_chunks ps = map (λ p. p.chunk) ps

packed_ids-chunks : (ps : List PackedChunk) → ranked_ids (packed_chunks ps) ≡ packed_ids ps
packed_ids-chunks [] = refl
packed_ids-chunks (p ∷ ps) = ap (λ ids. p.chunk.chunk_id ∷ ids) (packed_ids-chunks ps)

module _ (estimate : Text → ℕ) (budget limit : ℕ) where
  pub candidate-chunk : (c : RankedChunk) → (candidate estimate limit c).chunk ≡ c
  unfolding candidate
  candidate-chunk c = ground arith

  -- The chunk is packed, or it does not fit beside what is packed.
  abbrev pub PackedOrTooBig : List PackedChunk → ℕ → RankedChunk → Type 0
  PackedOrTooBig packed used c =
      IsIn (candidate estimate limit c) packed
      ⊎ (budget < used + (candidate estimate limit c).estimated_tokens)

  -- What holds after the chunks `seen`.
  record IsPacking (seen : List RankedChunk) (s : PackLoop estimate) : Type 0 where
    used : s.used_tokens ≡ total_tokens s.packed
    within : s.used_tokens ≤ budget
    omitted : List RankedChunk
    omitted_ids : s.omitted ≡ ranked_ids omitted
    shares : Shares (packed_chunks s.packed) omitted seen
    candidates : All (λ p. p ≡ candidate estimate limit p.chunk) s.packed
    maximal : All (PackedOrTooBig s.packed s.used_tokens) seen

  -- Room that lacks now lacks when more is packed.
  more_packed :
      (xs ys : List PackedChunk) (u v : ℕ) (seen : List RankedChunk)
      → ((p : PackedChunk) → IsIn p xs → IsIn p ys)
      → u ≤ v
      → All (PackedOrTooBig xs u) seen
      → All (PackedOrTooBig ys v) seen
  more_packed xs ys u v [] f k h = tt
  more_packed xs ys u v (c ∷ cs) f k (inl m, h) =
      (inl (f (candidate estimate limit c) m), more_packed xs ys u v cs f k h)
  more_packed xs ys u v (c ∷ cs) f k (inr m, h) =
      (inr (omega arith), more_packed xs ys u v cs f k h)

  module _ (seen : List RankedChunk) (c : RankedChunk) (s : PackLoop estimate) where
    abbrev p : PackedChunk
    p = candidate estimate limit c

    omit-IsPacking :
        ltb budget (s.used_tokens + p.estimated_tokens) ≡ true
        → IsPacking seen s
        → IsPacking (seen ++ c ∷ []) (place estimate budget p s)
    unfolding place
    omit-IsPacking e h = rw e (record {
      used = h.used;
      within = h.within;
      omitted = h.omitted ++ c ∷ [];
      omitted_ids = rw (map-append, candidate-chunk, h.omitted_ids) refl;
      shares = Shares-snoc_right c h.shares;
      candidates = h.candidates;
      maximal =
          All-append (PackedOrTooBig s.packed s.used_tokens) seen (c ∷ []) h.maximal
            (inr (ltb→lt _ _ e), tt);
    })

    pack-IsPacking :
        ltb budget (s.used_tokens + p.estimated_tokens) ≡ false
        → IsPacking seen s
        → IsPacking (seen ++ c ∷ []) (place estimate budget p s)
    unfolding place
    pack-IsPacking e h = rw e (record {
      used = rw total_tokens-append (unfold total_tokens in omega (arith, h.used));
      within = ground arith;
      omitted = h.omitted;
      omitted_ids = h.omitted_ids;
      shares = rw map-append (rw candidate-chunk (Shares-snoc_left c h.shares));
      candidates =
          All-append (λ q. q ≡ candidate estimate limit q.chunk) s.packed (p ∷ []) h.candidates
            (ap (candidate estimate limit) (sym (candidate-chunk c)), tt);
      maximal =
          All-append (PackedOrTooBig (s.packed ++ p ∷ []) (s.used_tokens + p.estimated_tokens)) seen
            (c ∷ [])
            (more_packed s.packed (s.packed ++ p ∷ []) s.used_tokens
              (s.used_tokens + p.estimated_tokens) seen (λ q. IsIn-append_left q s.packed (p ∷ []))
              (omega arith) h.maximal)
            (inl (IsIn-append_right p s.packed (p ∷ []) (inl refl)), tt);
    })

  place-IsPacking :
      (seen : List RankedChunk) (c : RankedChunk) (s : PackLoop estimate)
      → IsPacking seen s
      → IsPacking (seen ++ c ∷ []) (place estimate budget (candidate estimate limit c) s)
  place-IsPacking seen c s h =
      elim (Bool-cases
        (ltb budget (s.used_tokens + (candidate estimate limit c).estimated_tokens))) [
          | inl e ↦ omit-IsPacking seen c s e h
          | inr e ↦ pack-IsPacking seen c s e h
        ]

  pack_loop-IsPacking :
      (seen rest : List RankedChunk) (s : PackLoop estimate)
      → IsPacking seen s
      → IsPacking (seen ++ rest) (pack_loop estimate budget limit rest s)
  unfolding pack_loop
  pack_loop-IsPacking seen [] s h = rw append-nil h
  pack_loop-IsPacking seen (c ∷ rest) s h = rw (← append_assoc seen (c ∷ []) rest) (
      pack_loop-IsPacking (seen ++ c ∷ []) rest
        (place estimate budget (candidate estimate limit c) s) (place-IsPacking seen c s h))

  -- A packing of all chunks: the budget is kept, the packed chunks are candidates, every chunk is
  -- packed or among `omitted`, once and in its order, and what is omitted does not fit.
  pub record IsMaximalPacking (chunks : List RankedChunk) (r : PackingResult) : Type 0 where
    pub within : total_tokens r.chunks ≤ budget
    pub candidates : All (λ p. p ≡ candidate estimate limit p.chunk) r.chunks
    pub omitted : List RankedChunk
    pub omitted_ids : r.omitted_chunk_ids ≡ ranked_ids omitted
    pub shares : Shares (packed_chunks r.chunks) omitted chunks
    pub maximal : All (PackedOrTooBig r.chunks (total_tokens r.chunks)) chunks

  abbrev start : PackLoop estimate
  start = record { packed = []; omitted = []; truncated = []; used_tokens = 0 }

  start-IsPacking : IsPacking [] start
  start-IsPacking = record {
    used = unfold total_tokens in refl;
    within = omega arith;
    omitted = [];
    omitted_ids = refl;
    shares = done;
    candidates = tt;
    maximal = tt;
  }

  pack_result-IsMaximalPacking :
      (chunks : List RankedChunk) (s : PackLoop estimate)
      → IsPacking chunks s
      → IsMaximalPacking chunks (pack_result estimate chunks s)
  unfolding pack_result total_tokens
  pack_result-IsMaximalPacking chunks s h =
      elim (Bool-cases (is_empty s.packed && not (is_empty chunks))) [
        | inl e ↦
            (let nothing : s.packed ≡ [] = ground arith in
              rw e (record {
                within = omega arith;
                candidates = tt;
                omitted = chunks;
                omitted_ids = refl;
                shares = Shares-none chunks;
                maximal =
                    more_packed s.packed [] s.used_tokens 0 chunks (λ q. rw nothing (λ m. m))
                      (rw (h.used, nothing) (omega arith)) h.maximal;
              }))
        | inr e ↦ rw e (record {
          within = omega (arith, h.used, h.within);
          candidates = h.candidates;
          omitted = h.omitted;
          omitted_ids = h.omitted_ids;
          shares = h.shares;
          maximal = rw (← h.used) h.maximal;
        })
      ]

  -- Whatever the estimator: the estimates of the packed chunks add up to the budget at most; each
  -- retrieved chunk is packed, with its text or its truncated text, or omitted, once and in its
  -- order, and nothing else is; the omitted ids are those of the omitted chunks; and no chunk that
  -- is not packed would fit beside what is packed.
  pub pack_chunks-IsMaximalPacking :
      (chunks : List RankedChunk)
      → IsMaximalPacking chunks (pack_chunks estimate chunks budget limit)
  unfolding pack_chunks total_tokens
  pack_chunks-IsMaximalPacking chunks =
      pack_result-IsMaximalPacking chunks (pack_loop estimate budget limit chunks start)
        (pack_loop-IsPacking [] chunks start start-IsPacking)

  -- what is packed and what is omitted share out the ids
  pub IsMaximalPacking-ids :
      (chunks : List RankedChunk) (r : PackingResult)
      → IsMaximalPacking chunks r
      → Shares (packed_ids r.chunks) r.omitted_chunk_ids (ranked_ids chunks)
  IsMaximalPacking-ids chunks r h =
      rw (h.omitted_ids, ← packed_ids-chunks r.chunks)
        (Shares-map (λ (c : RankedChunk). c.chunk_id) h.shares)

  abbrev pub IsTooBig : RankedChunk → Type 0
  IsTooBig c = budget < (candidate estimate limit c).estimated_tokens

  pack_loop_no_room :
      (chunks : List RankedChunk) (s : PackLoop estimate)
      → All IsTooBig chunks
      → (pack_loop estimate budget limit chunks s).packed ≡ s.packed
  unfolding pack_loop
  pack_loop_no_room [] s h = refl
  pack_loop_no_room (c ∷ rest) s (k, h) =
      pack_loop_no_room rest (place estimate budget (candidate estimate limit c) s) h
      ∙ (unfold place in ground arith)

  none_packed : (chunks : List RankedChunk) → All (PackedOrTooBig [] 0) chunks → All IsTooBig chunks
  none_packed [] h = tt
  none_packed (c ∷ cs) (inl m, h) = absurd m
  none_packed (c ∷ cs) (inr m, h) = (omega arith, none_packed cs h)

  module _ (chunks : List RankedChunk) (s : PackLoop estimate) where
    pack_result-failed :
        (pack_result estimate chunks s).status ≡ PackingStatus.context_pack_failed
        → (chunks ≢ []) × ((pack_result estimate chunks s).chunks ≡ [])
    unfolding pack_result
    pack_result-failed e = ground arith

    pack_result_of_nothing :
        s.packed ≡ []
        → chunks ≢ []
        → (pack_result estimate chunks s).status ≡ PackingStatus.context_pack_failed
    unfolding pack_result
    pack_result_of_nothing e k = ground arith

  -- Packing fails exactly when there are chunks and each of them, truncated, passes the budget.
  pub pack_failed_iff :
      (chunks : List RankedChunk)
      → ((pack_chunks estimate chunks budget limit).status ≡ PackingStatus.context_pack_failed)
        ↔ ((chunks ≢ []) × All IsTooBig chunks)
  unfolding pack_chunks total_tokens
  pack_failed_iff chunks =
      let s = pack_loop estimate budget limit chunks start in
      (
        λ e.
            (let (some_chunk, nothing) = pack_result-failed chunks s e in
              (
                some_chunk,
                none_packed chunks (rw nothing at (pack_chunks-IsMaximalPacking chunks).maximal),
              )),
        λ h. pack_result_of_nothing chunks s (pack_loop_no_room chunks start h.1) h.0,
      )
