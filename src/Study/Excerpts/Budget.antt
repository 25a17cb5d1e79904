-- ===== src/Study/Excerpts/Budget.antt =====
-- Which blocks `truncate_excerpt_blocks` of src/study/excerpt_blocks.py returns.
use lexicon_revision.Prelude.{
  ℕ, ◌≤◌, ltb, length, join, filter, append_assoc, append-nil, is_empty, not, Bool-cases, Bool,
  true, false, ◌||◌, ◌&&◌, none, some, List, [], ◌∷◌, ◌++◌, if◌then◌else◌, ◌≡◌, ◌≢◌, ◌⊎◌, ◌∙◌, inl,
  inr, refl, sym, arith,
}
use lexicon_revision.Rendering.{RenderBlock, flatten_render_blocks}
use lexicon_revision.Study.Excerpts.{
  is_paragraph, any_paragraph, candidate_flattened_length, Selection, over_budget, within_budget,
  select_blocks, first_paragraph, with_paragraph, finish, truncate_excerpt_blocks,
}
use lexicon_revision.Study.Excerpts.Flattened.{length-flatten-snoc, length-flatten_nil}
use lexicon_revision.Study.Excerpts.Kept.{
  KeepsFitting, AddsParagraph, TakesFirst, IsExcerpt, any_paragraph-snoc, first_paragraph-append,
  first_paragraph_found,
}

-- the loop's state when it has gone over `kept`
abbrev after : List RenderBlock → Selection
after kept = record {
  selected = kept;
  included_paragraph = any_paragraph kept;
  flattened_chars = length (flatten_render_blocks kept);
}

module _ (budget_chars : ℕ) (first : RenderBlock) (blocks : List RenderBlock) where
  finish_keeps :
      (s : Selection)
      → s.selected ≢ []
      → (s.included_paragraph ≡ true) ⊎ (any_paragraph blocks ≡ false)
      → finish first blocks (some s) ≡ s.selected
  unfolding finish
  finish_keeps s ne h = from s.selected ne
    where
      wanted : (s.included_paragraph || not (any_paragraph blocks)) ≡ true
      wanted = ground (arith, h)

      from :
          (l : List RenderBlock)
          → l ≢ []
          → (if not (is_empty l) && (s.included_paragraph || not (any_paragraph blocks))
              then l
              else with_paragraph first (first_paragraph blocks) l)
            ≡ l
      from [] k = absurd (k refl)
      from (b ∷ l) k = rw wanted refl

  -- what is returned when the loop leaves with the blocks that fit
  finish-after :
      (kept : List RenderBlock)
      → any_paragraph kept ≡ false
      → any_paragraph blocks ≡ true
      → AddsParagraph blocks kept (finish first blocks (some (after kept)))
  unfolding finish with_paragraph
  finish-after kept h k =
      let (block, e) = first_paragraph_found blocks k in
      (h, (block, e, rw (h, k, e) (choose kept block)))
    where
      choose :
          (l : List RenderBlock) (block : RenderBlock)
          → (if not (is_empty l) && false then l else kept ++ block ∷ []) ≡ kept ++ block ∷ []
      choose [] block = refl
      choose (b ∷ l) block = refl

  Ending : List RenderBlock → List RenderBlock → Type 0
  Ending kept result =
      KeepsFitting blocks kept result
      ⊎ AddsParagraph blocks kept result
      ⊎ TakesFirst first blocks kept result

  over_adds :
      (kept : List RenderBlock) (block : RenderBlock) (rest : List RenderBlock)
      (has_paragraph : Bool)
      → blocks ≡ kept ++ block ∷ rest
      → is_paragraph block ≡ true
      → any_paragraph kept ≡ false
      → AddsParagraph blocks kept
          (finish first blocks (over_budget has_paragraph block (after kept)))
  unfolding over_budget first_paragraph
  over_adds kept block rest has_paragraph e p n = (
    n,
    (
      block,
      found,
      rw (p, n, nonempty kept)
          (finish_keeps
            (record (after kept) { selected = kept ++ block ∷ []; included_paragraph = true })
            (filled kept) (inl refl)),
    ),
  )
    where
      found : first_paragraph blocks ≡ some block
      found = rw e (first_paragraph-append kept (block ∷ rest) n ∙ rw (first_paragraph, p) refl)

      nonempty : (l : List RenderBlock) → is_empty (l ++ block ∷ []) ≡ false
      nonempty [] = refl
      nonempty (b ∷ l) = refl

      filled : (l : List RenderBlock) → l ++ block ∷ [] ≢ []
      filled [] = λ z. cc z
      filled (b ∷ l) = λ z. cc z

  over_same :
      (kept : List RenderBlock) (block : RenderBlock) (has_paragraph : Bool)
      → any_paragraph blocks ≡ has_paragraph
      → (is_paragraph block && not (any_paragraph kept)) ≡ false
      → Ending kept (finish first blocks (over_budget has_paragraph block (after kept)))
  unfolding over_budget Ending finish any_paragraph
  over_same kept block has_paragraph h e =
      rw e (from kept has_paragraph h (Bool-cases (any_paragraph kept)))
    where
      from :
          (l : List RenderBlock) (hp : Bool)
          → any_paragraph blocks ≡ hp
          → (any_paragraph l ≡ true) ⊎ (any_paragraph l ≡ false)
          → Ending l (finish first blocks (if not (is_empty l) || hp then some (after l) else none))
      from [] false k (inl q) = absurd (cc q)
      from [] false k (inr q) = inr (inr (refl, k, refl))
      from [] true k q = inr (inl (finish-after [] refl k))
      from (b ∷ l) hp k (inl q) =
          inl ((λ z. cc z), inl q, finish_keeps (after (b ∷ l)) (λ z. cc z) (inl q))
      from (b ∷ l) true k (inr q) = inr (inl (finish-after (b ∷ l) q k))
      from (b ∷ l) false k (inr q) =
          inl ((λ z. cc z), inr k, finish_keeps (after (b ∷ l)) (λ z. cc z) (inr k))

  over_excerpt :
      (kept : List RenderBlock) (block : RenderBlock) (rest : List RenderBlock)
      → blocks ≡ kept ++ block ∷ rest
      → Ending kept (finish first blocks (over_budget (any_paragraph blocks) block (after kept)))
  unfolding Ending
  over_excerpt kept block rest e =
      elim (Bool-cases (is_paragraph block && not (any_paragraph kept))) [
        | inl p ↦
            inr (
              inl
                (over_adds kept block rest (any_paragraph blocks) e (ground arith) (ground arith)))
        | inr p ↦ over_same kept block (any_paragraph blocks) refl p
      ]

  last_excerpt :
      (kept : List RenderBlock)
      → blocks ≢ []
      → blocks ≡ kept
      → Ending kept (finish first blocks (some (after kept)))
  unfolding Ending
  last_excerpt kept ne e = inl (filled, any, finish_keeps (after kept) filled any)
    where
      filled : kept ≢ []
      filled z = ne (e ∙ z)

      any : (any_paragraph kept ≡ true) ⊎ (any_paragraph blocks ≡ false)
      any = rw (← e) (Bool-cases (any_paragraph blocks))

  within_after :
      (kept : List RenderBlock) (block : RenderBlock)
      → within_budget block
          (candidate_flattened_length
            (length (flatten_render_blocks kept))
            (flatten_render_blocks (block ∷ [])))
          (after kept)
        ≡ after (kept ++ block ∷ [])
  unfolding within_budget
  within_after kept block = rw (any_paragraph-snoc kept block, length-flatten-snoc kept block) refl

  select_blocks-IsExcerpt :
      (kept rest : List RenderBlock)
      → blocks ≢ []
      → blocks ≡ kept ++ rest
      → length (flatten_render_blocks kept) ≤ budget_chars
      → IsExcerpt budget_chars first blocks (
          finish first blocks (select_blocks budget_chars (any_paragraph blocks) rest (after kept)))
  unfolding select_blocks Ending
  select_blocks-IsExcerpt kept [] ne e h = record {
    kept = kept;
    rest = [];
    split = e;
    fits = h;
    maximal = tt;
    ending = last_excerpt kept ne (e ∙ append-nil kept);
  }
  select_blocks-IsExcerpt kept (block ∷ rest) ne e h =
      elim (Bool-cases (
        ltb budget_chars (
          candidate_flattened_length (length (flatten_render_blocks kept))
            (flatten_render_blocks (block ∷ []))))) [
              | inl over ↦ rw over (record {
                kept = kept;
                rest = block ∷ rest;
                split = e;
                fits = h;
                maximal = ground (arith, length-flatten-snoc kept block);
                ending = over_excerpt kept block rest e;
              })
              | inr under ↦
                  rw (under, within_after kept block)
                    (select_blocks-IsExcerpt (kept ++ block ∷ []) rest ne
                      (e ∙ sym (append_assoc kept (block ∷ []) rest))
                      (ground (arith, length-flatten-snoc kept block)))
            ]

-- `truncate_excerpt_blocks` returns the longest prefix of the blocks whose flat text fits the
-- budget, when that prefix is not empty and has a paragraph or there is none among all blocks;
-- else the prefix and, behind it, the first paragraph; or the first block alone when no block
-- fits and none is a paragraph.
pub truncate_excerpt_blocks-IsExcerpt :
    (first : RenderBlock) (blocks : List RenderBlock) (budget_chars : ℕ)
    → IsExcerpt budget_chars first
        (first ∷ blocks)
        (truncate_excerpt_blocks (first ∷ blocks) budget_chars)
unfolding truncate_excerpt_blocks any_paragraph flatten_render_blocks join filter
truncate_excerpt_blocks-IsExcerpt first blocks budget_chars =
    select_blocks-IsExcerpt budget_chars first (first ∷ blocks) [] (first ∷ blocks) (λ z. cc z) refl
      (omega (arith, length-flatten_nil))
