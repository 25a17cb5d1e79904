-- ===== src/Storage/Disk/Resolving.antt =====
-- How `resolve` of src/storage/local.py follows the names of a key.
use lexicon_revision.Prelude.{
  Text, text_eq, text_eq_iff, text_HasEq, Bool-cases, filter, append_assoc, append-nil, true, not,
  List, [], ◌∷◌, ◌++◌, All, if◌then◌else◌, ◌≡◌, ◌≢◌, ◌∙◌, inl, inr, refl, sym, arith,
}
use lexicon_revision.Storage.Keys.Segments.{dot, dots}
use lexicon_revision.Storage.Disk.{FilePath, follow, follow_all, is_relative_to}

-- the names that a key resolves to below the root
abbrev pub names_of : List Text → List Text
names_of names = filter (λ name. not (text_eq name dot)) names

ordinary_name :
    (path : FilePath) (name : Text)
    → name ≢ []
    → name ≢ dots
    → follow path name ≡ (if text_eq name dot then path else path ++ name ∷ [])
unfolding follow
ordinary_name path [] h k = absurd (h refl)
ordinary_name path (c ∷ name) h k = ground (arith, text_eq_iff (c ∷ name) dots)

pub follow_all-names_of :
    (names : List Text) (path : FilePath)
    → All (λ p. p ≢ []) names
    → All (λ p. p ≢ dots) names
    → follow_all path names ≡ path ++ names_of names
unfolding follow_all filter
follow_all-names_of [] path h k = sym (append-nil path)
follow_all-names_of (name ∷ names) path (h, hs) (k, ks) = elim (Bool-cases (text_eq name dot)) [
  | inl e ↦ rw (ordinary_name path name h k, e) (follow_all-names_of names path hs ks)
  | inr e ↦
      rw (ordinary_name path name h k, e)
        (follow_all-names_of names (path ++ name ∷ []) hs ks
          ∙ append_assoc path (name ∷ []) (names_of names))
]

pub is_relative_to-append : (root path : FilePath) → is_relative_to root (root ++ path) ≡ true
unfolding is_relative_to
is_relative_to-append [] path = refl
is_relative_to-append (a ∷ root) path =
    ground (arith, text_eq_iff a a, is_relative_to-append root path)
