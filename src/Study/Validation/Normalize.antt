-- ===== src/Study/Validation/Normalize.antt =====
-- What `normalize_chunk_id` returns.
use lexicon_revision.Prelude.{
  Text, text_HasEq, contains, contains-IsIn, IsIn-contains, IsIn, IsIn-filter, filter, ◌≡◌, refl,
  Bool-cases, inl, inr, some, List, [], ◌∷◌, arith,
}
use lexicon_revision.Study.Validation.{only, names_part_of, normalize_chunk_id}

only-eq-some {ℓ} : {A : Type ℓ} (xs : List A) {a : A} → only xs ≡ some a → xs ≡ a ∷ []
unfolding only
only-eq-some [] h = cc
only-eq-some (x ∷ []) h = cc
only-eq-some (x ∷ y ∷ xs) h = cc

module _ (c : Text) (valid : List Text) where
  pub normalize_chunk_id_self : IsIn c valid → normalize_chunk_id c valid ≡ some c
  unfolding normalize_chunk_id
  normalize_chunk_id_self m = rw (contains-IsIn valid c m)

  pub normalize_chunk_id-IsIn : {n : Text} → normalize_chunk_id c valid ≡ some n → IsIn n valid
  unfolding normalize_chunk_id
  normalize_chunk_id-IsIn {n} h = elim (Bool-cases (contains valid c)) [
    | inl e ↦ (let q : c ≡ n = ground arith in rw (← q) (IsIn-contains valid c e))
    | inr e ↦
        (let q = only-eq-some (filter (names_part_of c) valid) {a = n} (ground arith) in
          (IsIn-filter (names_part_of c) n valid (rw q (inl refl))).0)
  ]
