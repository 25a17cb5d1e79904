-- ===== src/Storage/Local/Objects.antt =====
-- `LocalObjectStorage` of src/storage/local.py as a map from keys to bytes.
use lexicon_revision.Prelude.{
  Text, text_eq, text_eq_iff, text_HasEq, Bool-cases, Bool, true, false, not, filter_self, Option,
  some, List, [], ◌∷◌, ◌++◌, All, Result, ok, is_ok, if◌then◌else◌, ◌≡◌, ◌≢◌, ◌⊎◌, ◌∙◌, inl, inr,
  refl, sym, ap, arith,
}
use lexicon_revision.Storage.Keys.{StorageError, validate_key}
use lexicon_revision.Storage.Keys.Segments.{segments, dot}
use lexicon_revision.Storage.Keys.Joined.{segments_injective}
use lexicon_revision.Storage.Disk.{
  FilePath, Bytes, Disk, directory, path_eq, path_eq_iff, drop_last, file_at,
}
use lexicon_revision.Storage.Disk.Resolving.{names_of}
use lexicon_revision.Storage.Disk.Writable.{IsClear}
use lexicon_revision.Storage.Local.{put_bytes, found, get_bytes}
use lexicon_revision.Storage.Local.Contents.{place, get_bytes_lem, get_bytes-put_bytes}

-- the contract: a store is a function from keys to bytes
abbrev pub Objects : Type 0
Objects = Text → Option Bytes

abbrev pub put_object : Objects → Text → Bytes → Objects
put_object objects key content k = if text_eq k key then some content else objects k

abbrev pub get_object : Objects → Text → Result StorageError Bytes
get_object objects key = found key (objects key)

-- what a disk holds below the root
abbrev pub objects_of : FilePath → Disk → Objects
objects_of root disk key = file_at disk (place root key)

-- a key that `validate_key` accepts and none of whose segments is `.`
abbrev pub IsPlain : Text → Type 0
IsPlain key = (validate_key key ≡ ok tt) × All (λ p. p ≢ dot) (segments key)

names_of_plain : (names : List Text) → All (λ p. p ≢ dot) names → names_of names ≡ names
names_of_plain names h = filter_self (λ name. not (text_eq name dot)) names (tests names h)
  where
    tests : (ps : List Text) → All (λ p. p ≢ dot) ps → All (λ p. not (text_eq p dot) ≡ true) ps
    tests [] h = tt
    tests (p ∷ ps) (h, hs) = (ground (arith, text_eq_iff p dot), tests ps hs)

append_cancel : (root p q : FilePath) → root ++ p ≡ root ++ q → p ≡ q
append_cancel [] p q e = e
append_cancel (a ∷ root) p q e = append_cancel root p q (ap tail e)
  where
    tail : FilePath → FilePath
    tail [] = []
    tail (b ∷ r) = r

place_injective :
    (root : FilePath) (key key' : Text)
    → IsPlain key
    → IsPlain key'
    → place root key ≡ place root key'
    → key ≡ key'
place_injective root key key' (_, h) (_, k) e = segments_injective key key' (
    sym (names_of_plain (segments key) h)
    ∙ append_cancel root (names_of (segments key)) (names_of (segments key')) e
    ∙ names_of_plain (segments key') k)

path_eq-place :
    (root : FilePath) (key key' : Text)
    → IsPlain key
    → IsPlain key'
    → path_eq (place root key') (place root key) ≡ text_eq key' key
path_eq-place root key key' h k = elim (Bool-cases (text_eq key' key)) [
  | inl e ↦
      (let q : key' ≡ key = (text_eq_iff key' key).0 e in
        rw (e, q) ((path_eq_iff (place root key) (place root key)).1 refl))
  | inr e ↦ rw e (differ e (Bool-cases (path_eq (place root key') (place root key))))
]
  where
    differ :
        text_eq key' key ≡ false
        → (path_eq (place root key') (place root key) ≡ true)
          ⊎ (path_eq (place root key') (place root key) ≡ false)
        → path_eq (place root key') (place root key) ≡ false
    differ n (inl e) = absurd (unequal (place_injective root key' key k h ((path_eq_iff _ _).0 e)))
      where
        unequal : key' ≡ key → ⊥
        unequal q = cc (n, (text_eq_iff key' key).1 q)
    differ n (inr e) = e

-- On keys without a segment `.`, a `put_bytes` that returns changes the files of the disk as the
-- contract changes the map: reading any key afterwards gives what the changed map holds.
pub put_bytes-put_object :
    (hexdigest : Bytes → Text) (root : FilePath) (key key' : Text) (content : Bytes)
    (content_type : Option Text) (disk : Disk)
    → IsPlain key
    → IsPlain key'
    → is_ok (put_bytes hexdigest root key content content_type disk).0 ≡ true
    → get_bytes root key' (put_bytes hexdigest root key content content_type disk).1
      ≡ get_object (put_object (objects_of root disk) key content) key'
unfolding found
put_bytes-put_object hexdigest root key key' content content_type disk h k r =
    get_bytes-put_bytes hexdigest root key key' content content_type disk k.0
    ∙ rw (r, path_eq-place root key key' h k, get_bytes_lem root key' disk k.0)
        (choose (text_eq key' key))
  where
    choose :
        (b : Bool)
        → (if b then ok content else found key' (file_at disk (place root key')))
          ≡ found key' (if b then some content else file_at disk (place root key'))
    choose true = refl
    choose false = refl

-- where nothing is in the way of a key: no file at a directory above its place, and no directory
-- at its place
abbrev pub IsWritable : FilePath → Disk → Text → Type 0
IsWritable root disk key =
    IsClear disk [] (drop_last (place root key)) × (disk (place root key) ≢ some directory)
