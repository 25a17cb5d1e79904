-- ===== src/Study/Packing/Dedupe.antt =====
-- `dedupe_parent_child`: no sub-question stays beside its question, nothing else is dropped, and
-- the best score stays.
use lexicon_revision.Prelude.{
  ◌≤◌, ◌<◌, Text, text_HasEq, IsIn, IsIn-append, IsIn-append_left, IsIn-append_right, IsIn-filter,
  IsIn-filter_of, IsIn-contains, contains, contains-IsIn, All, All-IsIn, All-map, IsNodup,
  text_eq_iff, ◌≡◌, ◌≢◌, refl, sym, ◌∙◌, ◌⊎◌, inl, inr, true, not, Bool, Bool-cases, Option-cases,
  Option, none, some, List, [], ◌∷◌, map, ltb, ltb→lt, arith, if◌then◌else◌,
}
use lexicon_revision.Study.Models.{ChunkLevel, question, sub_question, RankedChunk}
use lexicon_revision.Study.Packing.{
  by_id, drop_weaker, parent_of, look_up_parent, removed_by, removed_ids, dedupe_parent_child,
}

by_id-some :
    (cs : List RankedChunk) (id : Text) (p : RankedChunk)
    → by_id cs id ≡ some p
    → (p.chunk_id ≡ id) × IsIn p cs
unfolding by_id
by_id-some [] id p h = cc
by_id-some (c ∷ cs) id p h = elim (Option-cases (by_id cs id)) [
  | inl e ↦ (ground (arith, text_eq_iff c.chunk_id id), ground (arith))
  | inr (q, e) ↦ (let (same, m) = by_id-some cs id p (e ∙ rw (e, by_id) at h) in (same, inr m))
]

by_id-IsIn :
    (cs : List RankedChunk) (p : RankedChunk)
    → IsIn p cs
    → (q : RankedChunk) × (by_id cs p.chunk_id ≡ some q)
unfolding by_id
by_id-IsIn [] p m = absurd m
by_id-IsIn (c ∷ cs) p (inr m) = let (q, e) = by_id-IsIn cs p m in (q, rw e)
by_id-IsIn (c ∷ cs) p (inl e) = elim (Option-cases (by_id cs p.chunk_id)) [
  | inl k ↦ (c, ground (arith, text_eq_iff c.chunk_id p.chunk_id))
  | inr (q, k) ↦ (q, rw k)
]

module _ (chunks : List RankedChunk) where
  -- A retrieved sub-question, and the retrieved chunk that its parent id names.
  pub record IsChildOf (child parent : RankedChunk) : Type 0 where
    pub level : child.chunk_level ≡ sub_question
    pub link : child.parent_chunk_id ≡ some parent.chunk_id
    pub child_in : IsIn child chunks
    pub parent_in : IsIn parent chunks

  removed_by-parent :
      (c p : RankedChunk)
      → c.chunk_level ≡ sub_question
      → c.parent_chunk_id ≡ some p.chunk_id
      → (q : RankedChunk) → by_id chunks p.chunk_id ≡ some q
      → removed_by chunks c ≡ (if ltb q.score c.score then q.chunk_id ∷ [] else c.chunk_id ∷ [])
  unfolding removed_by
  removed_by-parent c p l k q e =
      rw (l, k) (unfold parent_of look_up_parent drop_weaker in rw e refl)

  removed_ids-IsIn :
      (a : Text) (rest : List RankedChunk) (c : RankedChunk)
      → IsIn c rest
      → IsIn a (removed_by chunks c)
      → IsIn a (removed_ids chunks rest)
  unfolding removed_ids
  removed_ids-IsIn a [] c m k = absurd m
  removed_ids-IsIn a (x ∷ rest) c (inl e) k =
      IsIn-append_left a (removed_by chunks x) (removed_ids chunks rest) (rw (← e) k)
  removed_ids-IsIn a (x ∷ rest) c (inr m) k =
      IsIn-append_right a (removed_by chunks x) (removed_ids chunks rest)
        (removed_ids-IsIn a rest c m k)

  removed_ids-from :
      (a : Text) (rest : List RankedChunk)
      → IsIn a (removed_ids chunks rest)
      → (c : RankedChunk) × IsIn c rest × IsIn a (removed_by chunks c)
  unfolding removed_ids
  removed_ids-from a [] m = absurd m
  removed_ids-from a (x ∷ rest) m =
      elim (IsIn-append a (removed_by chunks x) (removed_ids chunks rest) m) [
        | inl l ↦ (x, inl refl, l)
        | inr r ↦ (let (c, k, l) = removed_ids-from a rest r in (c, inr k, l))
      ]

  -- A child and its parent: the one with the lower score is dropped, the child of two equals.
  child_or_parent :
      (c p : RankedChunk)
      → IsChildOf c p
      → IsIn c.chunk_id (removed_ids chunks chunks) ⊎ IsIn p.chunk_id (removed_ids chunks chunks)
  child_or_parent c p h =
      let (q, e) = by_id-IsIn chunks p h.parent_in in
      let same = (by_id-some chunks p.chunk_id q e).0 in
      let dropped = removed_by-parent c p h.level h.link q e in
      elim (Bool-cases (ltb q.score c.score)) [
        | inl t ↦
            inr (removed_ids-IsIn p.chunk_id chunks c h.child_in (rw (dropped, t) (inl (sym same))))
        | inr t ↦ inl (removed_ids-IsIn c.chunk_id chunks c h.child_in (rw (dropped, t) (inl refl)))
      ]

  survivor :
      (c : RankedChunk)
      → IsIn c (dedupe_parent_child chunks)
      → IsIn c chunks × (IsIn c.chunk_id (removed_ids chunks chunks) → ⊥)
  unfolding dedupe_parent_child
  survivor c m =
      let (here, k) = IsIn-filter _ c chunks m in
      (here, λ r. not_true (contains-IsIn (removed_ids chunks chunks) c.chunk_id r) k)
    where
      not_true : {b : Bool} → b ≡ true → not b ≡ true → ⊥
      not_true {b} e f = ground arith

  -- No sub-question stays beside the chunk that its parent id names.
  pub dedupe_parent_child-separates :
      (c p : RankedChunk)
      → IsIn c (dedupe_parent_child chunks)
      → IsIn p (dedupe_parent_child chunks)
      → c.chunk_level ≡ sub_question
      → c.parent_chunk_id ≢ some p.chunk_id
  dedupe_parent_child-separates c p mc mp l k =
      let (c_in, c_stays) = survivor c mc in
      let (p_in, p_stays) = survivor p mp in
      elim (child_or_parent c p
        (record { level = l; link = k; child_in = c_in; parent_in = p_in })) [
          | inl r ↦ c_stays r
          | inr r ↦ p_stays r
        ]

  -- Why a chunk is dropped: its id is that of a parent with a better child, or of a child with a
  -- parent that is no worse.
  pub data IsOutdone (id : Text) : Type 0 where
    by_child :
        (c p : RankedChunk) → IsChildOf c p → p.chunk_id ≡ id → p.score < c.score → IsOutdone id
    by_parent :
        (c p : RankedChunk) → IsChildOf c p → c.chunk_id ≡ id → c.score ≤ p.score → IsOutdone id

  weaker-IsOutdone :
      (a : Text) (c p : RankedChunk) → IsChildOf c p → IsIn a (drop_weaker c (some p)) → IsOutdone a
  unfolding drop_weaker
  weaker-IsOutdone a c p h k = elim (Bool-cases (ltb p.score c.score)) [
    | inl t ↦ by_child c p h (sym (only_member (rw t at k))) (ltb→lt p.score c.score t)
    | inr t ↦ by_parent c p h (sym (only_member (rw t at k))) (ground arith)
  ]
    where
      only_member : {b : Text} → IsIn a (b ∷ []) → a ≡ b
      only_member (inl e) = e
      only_member (inr m) = absurd m

  drop_weaker-IsOutdone :
      (a : Text) (c : RankedChunk) (level : ChunkLevel) (parent_id : Option Text)
      → IsIn c chunks
      → c.chunk_level ≡ level
      → c.parent_chunk_id ≡ parent_id
      → IsIn a (drop_weaker c (look_up_parent chunks (parent_of level parent_id)))
      → IsOutdone a
  unfolding look_up_parent parent_of
  drop_weaker-IsOutdone a c question id m l q k = absurd (unfold drop_weaker in k)
  drop_weaker-IsOutdone a c sub_question none m l q k = absurd (unfold drop_weaker in k)
  drop_weaker-IsOutdone a c sub_question (some id) m l q k = elim (Option-cases (by_id chunks id)) [
    | inl e ↦ absurd (unfold drop_weaker in rw e at k)
    | inr (p, e) ↦
        (let (same, p_in) = by_id-some chunks id p e in
          weaker-IsOutdone a c p
            (record { level = l; link = rw same q; child_in = m; parent_in = p_in }) (rw e at k))
  ]

  -- A retrieved chunk that is dropped is outdone by a parent or by a child of it.
  pub dedupe_parent_child-drops :
      (c : RankedChunk) → IsIn c chunks → IsIn c (dedupe_parent_child chunks) ⊎ IsOutdone c.chunk_id
  unfolding dedupe_parent_child
  dedupe_parent_child-drops c m =
      elim (Bool-cases (contains (removed_ids chunks chunks) c.chunk_id)) [
        | inl e ↦
            (let (x, x_in, k) =
                removed_ids-from c.chunk_id chunks
                  (IsIn-contains (removed_ids chunks chunks) c.chunk_id e) in
              inr (
                drop_weaker-IsOutdone c.chunk_id x x.chunk_level x.parent_chunk_id x_in refl refl
                  (unfold removed_by in k)))
        | inr e ↦ inl (IsIn-filter_of _ c chunks m (rw e refl))
      ]

maximum :
    (x : RankedChunk) (cs : List RankedChunk)
    → (m : RankedChunk) × IsIn m (x ∷ cs) × All (λ c. c.score ≤ m.score) (x ∷ cs)
maximum x [] = (x, inl refl, (omega arith, tt))
maximum x (y ∷ ys) =
    let (m, m_in, top) = maximum y ys in
    elim (Bool-cases (ltb m.score x.score)) [
      | inl e ↦ (
        x,
        inl refl,
        (
          omega arith,
          All-map (λ c. c.score ≤ m.score) (λ c. c.score ≤ x.score)
              (λ c h. omega (arith, h, ltb→lt m.score x.score e)) (y ∷ ys) top,
        ),
      )
      | inr e ↦ (m, inr m_in, (ground arith, top))
    ]

-- A retrieved chunk with the best score.
best :
    (c : RankedChunk) (cs : List RankedChunk)
    → IsIn c cs
    → (m : RankedChunk) × IsIn m cs × All (λ x. x.score ≤ m.score) cs
best c [] m = absurd m
best c (x ∷ cs) m = maximum x cs

other_id :
    (c y : RankedChunk) (cs : List RankedChunk)
    → All (λ id. c.chunk_id ≢ id) (map (λ x. x.chunk_id) cs)
    → IsIn y cs
    → c.chunk_id ≢ y.chunk_id
other_id c y [] d m = absurd m
other_id c y (x ∷ cs) (k, d) (inl e) = rw e k
other_id c y (x ∷ cs) (k, d) (inr m) = other_id c y cs d m

chunk_of_id :
    (x y : RankedChunk) (cs : List RankedChunk)
    → IsNodup (map (λ c. c.chunk_id) cs)
    → IsIn x cs
    → IsIn y cs
    → x.chunk_id ≡ y.chunk_id
    → x ≡ y
chunk_of_id x y [] n m k e = absurd m
chunk_of_id x y (c ∷ cs) (d, n) (inl p) (inl q) e = p ∙ sym q
chunk_of_id x y (c ∷ cs) (d, n) (inl p) (inr k) e = absurd (other_id c y cs d k (rw p at e))
chunk_of_id x y (c ∷ cs) (d, n) (inr m) (inl q) e = absurd (other_id c x cs d m (sym (rw q at e)))
chunk_of_id x y (c ∷ cs) (d, n) (inr m) (inr k) e = chunk_of_id x y cs n m k e

module _ (chunks : List RankedChunk) (distinct : IsNodup (map (λ c. c.chunk_id) chunks))
    (questions : (c p : RankedChunk) → IsChildOf chunks c p → p.chunk_level ≡ question) where
  -- A best question stays, since only a better child outdoes it.
  best_question_stays :
      (m : RankedChunk)
      → IsIn m chunks
      → m.chunk_level ≡ question
      → All (λ x. x.score ≤ m.score) chunks
      → IsIn m (dedupe_parent_child chunks)
  best_question_stays m m_in level top = elim (dedupe_parent_child-drops chunks m m_in) [
    | inl stays ↦ stays
    | inr (by_child c p h e lt) ↦ absurd (
        let same = chunk_of_id p m chunks distinct h.parent_in m_in e in
        let above = All-IsIn (λ x. x.score ≤ m.score) c chunks top h.child_in in
        omega (arith, above, rw same at lt))
    | inr (by_parent c p h e le) ↦
        absurd (
          let same = chunk_of_id c m chunks distinct h.child_in m_in e in cc (h.level, same, level))
  ]

  -- If ids are distinct and parents are questions, the best score stays: every retrieved chunk has
  -- a chunk among those that stay with a score at least as high.
  pub dedupe_parent_child-keeps_best :
      (c : RankedChunk)
      → IsIn c chunks
      → (r : RankedChunk) × IsIn r (dedupe_parent_child chunks) × (c.score ≤ r.score)
  dedupe_parent_child-keeps_best c c_in =
      let (m, m_in, top) = best c chunks c_in in
      let below = All-IsIn (λ x. x.score ≤ m.score) c chunks top c_in in
      elim (dedupe_parent_child-drops chunks m m_in) [
        | inl stays ↦ (m, stays, below)
        | inr (by_child x p h e lt) ↦ absurd (
            let same = chunk_of_id p m chunks distinct h.parent_in m_in e in
            let above = All-IsIn (λ y. y.score ≤ m.score) x chunks top h.child_in in
            omega (arith, above, rw same at lt))
        | inr (by_parent x p h e le) ↦
            (let same = chunk_of_id x m chunks distinct h.child_in m_in e in
              let up : m.score ≤ p.score = rw same at le in
              (
                p,
                best_question_stays p h.parent_in (questions x p h) (
                    All-map (λ y. y.score ≤ m.score) (λ y. y.score ≤ p.score)
                      (λ y k. omega (arith, k, up)) chunks top),
                omega (arith, below, up),
              ))
      ]
