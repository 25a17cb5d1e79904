-- ===== src/Study/Excerpts/Kept.antt =====
-- What an excerpt of src/study/excerpt_blocks.py has to be.
use lexicon_revision.Prelude.{
  ℕ, ◌≤◌, ◌<◌, length, Bool-cases, true, false, ◌||◌, some, List, [], ◌∷◌, ◌++◌, ◌≡◌, ◌≢◌, ◌⊎◌, inl,
  inr, refl, arith,
}
use lexicon_revision.Rendering.{RenderBlock, flatten_render_blocks}
use lexicon_revision.Study.Excerpts.{is_paragraph, any_paragraph, first_paragraph}

-- the next block would not fit
abbrev pub NextIsOver : ℕ → List RenderBlock → List RenderBlock → Type 0
NextIsOver budget_chars kept [] = Unit
NextIsOver budget_chars kept (block ∷ rest) =
    budget_chars < length (flatten_render_blocks (kept ++ block ∷ []))

-- the blocks that fit, unless a paragraph is missing
abbrev pub KeepsFitting : List RenderBlock → List RenderBlock → List RenderBlock → Type 0
KeepsFitting blocks kept result =
    (kept ≢ []) × ((any_paragraph kept ≡ true) ⊎ (any_paragraph blocks ≡ false)) × (result ≡ kept)

-- the blocks that fit have no paragraph, and the first one is added
abbrev pub AddsParagraph : List RenderBlock → List RenderBlock → List RenderBlock → Type 0
AddsParagraph blocks kept result =
    (any_paragraph kept ≡ false)
    × ((block : RenderBlock) × (first_paragraph blocks ≡ some block)
        × (result ≡ kept ++ block ∷ []))

-- no block fits, and none is a paragraph
abbrev pub TakesFirst :
    RenderBlock → List RenderBlock → List RenderBlock → List RenderBlock → Type 0
TakesFirst first blocks kept result =
    (kept ≡ []) × (any_paragraph blocks ≡ false) × (result ≡ first ∷ [])

-- what an excerpt of blocks whose first is `first` has to be
pub record IsExcerpt (budget_chars : ℕ) (first : RenderBlock) (blocks result : List RenderBlock)
    : Type 0 where
  pub kept : List RenderBlock
  pub rest : List RenderBlock
  pub split : blocks ≡ kept ++ rest
  pub fits : length (flatten_render_blocks kept) ≤ budget_chars
  pub maximal : NextIsOver budget_chars kept rest
  pub ending :
      KeepsFitting blocks kept result
      ⊎ AddsParagraph blocks kept result
      ⊎ TakesFirst first blocks kept result

pub any_paragraph-snoc :
    (kept : List RenderBlock) (block : RenderBlock)
    → any_paragraph (kept ++ block ∷ []) ≡ (any_paragraph kept || is_paragraph block)
unfolding any_paragraph
any_paragraph-snoc [] block = ground arith
any_paragraph-snoc (b ∷ kept) block = ground (arith, any_paragraph-snoc kept block)

pub first_paragraph-append :
    (kept rest : List RenderBlock)
    → any_paragraph kept ≡ false
    → first_paragraph (kept ++ rest) ≡ first_paragraph rest
unfolding any_paragraph first_paragraph
first_paragraph-append [] rest h = refl
first_paragraph-append (b ∷ kept) rest h = ground (arith, first_paragraph-append kept rest)

pub first_paragraph_found :
    (blocks : List RenderBlock)
    → any_paragraph blocks ≡ true
    → (block : RenderBlock) × (first_paragraph blocks ≡ some block)
unfolding any_paragraph first_paragraph
first_paragraph_found [] h = absurd (cc h)
first_paragraph_found (b ∷ blocks) h = elim (Bool-cases (is_paragraph b)) [
  | inl e ↦ rw e (b, refl)
  | inr e ↦ rw e (first_paragraph_found blocks (rw e at h))
]
