-- ===== src/Storage/Presign/Urls.antt =====
-- What the presigned URLs of src/storage/local.py say, and who accepts them.
use lexicon_revision.Prelude.{
  ℕ, zero, suc, nat_eq, nat_eq_iff, Text, text_HasEq, text_eq, text_eq_iff, codes, starts_with,
  starts_with_split, length, drop, Bool-cases, true, false, ◌||◌, Option, none, some, List, [], ◌∷◌,
  ◌++◌, join, ℤ, Result, ok, err, ◌>>=◌, ◌≡◌, ◌⊎◌, ◌∙◌, inl, inr, refl, sym, ap, All,
}
use lexicon_revision.Storage.Keys.{StorageError, validate_key}
use lexicon_revision.Storage.Keys.Segments.{push, slash}
use lexicon_revision.Storage.Keys.Joined.{join-push, push_cons, join_nil_cons}
use lexicon_revision.Storage.Presign.{
  PresignLibrary, rstrip_slashes, split_slashes, is_past, signature_of, validate_signed,
  validate_expiry, validate_parts, validate_local_presigned_url,
}

-- no slash stands in the text
abbrev pub HasNoSlash : Text → Type 0
HasNoSlash = All (λ c. nat_eq c 47 ≡ false)

pub split_slashes-append :
    (n : ℕ) (p s : Text)
    → HasNoSlash p
    → split_slashes (suc n) (p ++ 47 ∷ s) ≡ p ∷ split_slashes n s
unfolding split_slashes push
split_slashes-append n [] s h = refl
split_slashes-append n (c ∷ p) s (h, hs) = rw (h, split_slashes-append n p s hs) refl

split_slashes_cons :
    (n : ℕ) (s : Text) → (p : Text) × (ps : List Text) × (split_slashes n s ≡ p ∷ ps)
unfolding split_slashes
split_slashes_cons zero s = (s, [], refl)
split_slashes_cons (suc n) [] = ([], [], refl)
split_slashes_cons (suc n) (c ∷ s) = elim (Bool-cases (nat_eq c 47)) [
  | inl e ↦ rw e ([], split_slashes n s, refl)
  | inr e ↦ rw e (push_cons c (split_slashes (suc n) s))
]

join-split_slashes : (n : ℕ) (s : Text) → join slash (split_slashes n s) ≡ s
unfolding split_slashes join
join-split_slashes zero s = refl
join-split_slashes (suc n) [] = refl
join-split_slashes (suc n) (c ∷ s) = elim (Bool-cases (nat_eq c 47)) [
  | inl e ↦
      (let (p, ps, q) = split_slashes_cons n s in
        rw e (
          join_nil_cons p ps (split_slashes n s) q
          ∙ rw (join-split_slashes n s, (nat_eq_iff c 47).0 e) refl))
  | inr e ↦ rw e (
      join-push c (split_slashes (suc n) s)
      ∙ ap (λ (t : Text). c ∷ t) (join-split_slashes (suc n) s))
]

pub drop-append : (p s : Text) → drop (length p) (p ++ s) ≡ s
drop-append [] s = refl
drop-append (c ∷ p) s = drop-append p s

module _ {Secret : Type 0} (library : PresignLibrary Secret) (secret : Secret) where
  -- what a URL says that is accepted at the time `now`
  pub record IsSigned (base_url url : Text) (now : ℕ) (method key : Text) : Type 0 where
    pub expires_str : Text
    pub expires_unix : ℤ
    pub encoded_key : Text
    pub addressed :
        url
        ≡ (rstrip_slashes base_url ++ slash)
          ++ join slash (
              method
              ∷ expires_str
              ∷ signature_of library secret method expires_unix encoded_key
              ∷ encoded_key
              ∷ [])
    pub known : (method ≡ codes "GET") ⊎ (method ≡ codes "PUT")
    pub expiry : library.read expires_str ≡ some expires_unix
    pub fresh : is_past expires_unix now ≡ false
    pub decoded : key ≡ library.unquote encoded_key
    pub valid : validate_key key ≡ ok tt

  validate_expiry-ok :
      (now : ℕ) (m : Text) (o : Option ℤ) (sig encoded_key : Text) (r : Text × Text)
      → validate_expiry library secret now m o sig encoded_key ≡ ok r
      → (u : ℤ) × (o ≡ some u) × (validate_signed library secret now m u sig encoded_key ≡ ok r)
  unfolding validate_expiry
  validate_expiry-ok now m none sig encoded_key r h = absurd (cc h)
  validate_expiry-ok now m (some u) sig encoded_key r h = (u, refl, h)

  validate_signed-ok :
      (now : ℕ) (m : Text) (u : ℤ) (sig encoded_key : Text) (r : Text × Text)
      → validate_signed library secret now m u sig encoded_key ≡ ok r
      → (is_past u now ≡ false)
        × (sig ≡ signature_of library secret m u encoded_key)
        × (validate_key (library.unquote encoded_key) ≡ ok tt)
        × (◌≡◌ {A = Text × Text} (m, library.unquote encoded_key) r)
  unfolding validate_signed
  validate_signed-ok now m u sig encoded_key r h = elim (Bool-cases (is_past u now)) [
    | inl e ↦ absurd (late e)
    | inr e ↦ elim (Bool-cases (text_eq sig (signature_of library secret m u encoded_key))) [
      | inl q ↦ (let d = decoded_key e q in (e, (text_eq_iff _ _).0 q, d.0, d.1))
      | inr q ↦ absurd (forged e q)
    ]
  ]
    where
      late : is_past u now ≡ true → ⊥
      late e = cc (rw e at h)

      forged :
          is_past u now ≡ false
          → text_eq sig (signature_of library secret m u encoded_key) ≡ false
          → ⊥
      forged e q = cc (rw (e, q) at h)

      from_key : Result StorageError Unit → Type 0
      from_key k =
          (k >>= (λ _. ok (m, library.unquote encoded_key))) ≡ ok r
          → (k ≡ ok tt) × (◌≡◌ {A = Text × Text} (m, library.unquote encoded_key) r)

      key_ok : (k : Result StorageError Unit) → from_key k
      key_ok (ok _) = λ e. (refl, cc e)
      key_ok (err _) = λ e. absurd (cc e)

      decoded_key :
          is_past u now ≡ false
          → text_eq sig (signature_of library secret m u encoded_key) ≡ true
          → (validate_key (library.unquote encoded_key) ≡ ok tt)
            × (◌≡◌ {A = Text × Text} (m, library.unquote encoded_key) r)
      decoded_key e q = key_ok (validate_key (library.unquote encoded_key)) (rw (e, q) at h)

  validate_parts-IsSigned :
      (base_url url : Text) (now : ℕ) (parts : List Text) (method key : Text)
      → url ≡ (rstrip_slashes base_url ++ slash) ++ join slash parts
      → validate_parts library secret now parts ≡ ok (method, key)
      → IsSigned base_url url now method key
  unfolding validate_parts
  validate_parts-IsSigned base_url url now (m ∷ expires_str ∷ sig ∷ encoded_key ∷ []) method key a
        h =
      elim (Bool-cases (text_eq m (codes "GET") || text_eq m (codes "PUT"))) [
        | inl e ↦
            (let (u, x, h1) =
                validate_expiry-ok now m (library.read expires_str) sig encoded_key (method, key)
                  (rw e at h) in
              let (f, s, v, p) = validate_signed-ok now m u sig encoded_key (method, key) h1 in
              let q : m ≡ method = ap (λ (r : Text × Text). r.0) p in
              let k : library.unquote encoded_key ≡ key = ap (λ (r : Text × Text). r.1) p in
              record {
                expires_str = expires_str;
                expires_unix = u;
                encoded_key = encoded_key;
                addressed = rw (← q, ← s) a;
                known = rw (← q) (methods m e);
                expiry = x;
                fresh = f;
                decoded = sym k;
                valid = rw (← k) v;
              })
        | inr e ↦ absurd (unknown e)
      ]
    where
      unknown : (text_eq m (codes "GET") || text_eq m (codes "PUT")) ≡ false → ⊥
      unknown e = cc (rw e at h)

      methods :
          (m : Text)
          → (text_eq m (codes "GET") || text_eq m (codes "PUT")) ≡ true
          → (m ≡ codes "GET") ⊎ (m ≡ codes "PUT")
      methods m e = elim (Bool-cases (text_eq m (codes "GET"))) [
        | inl q ↦ inl ((text_eq_iff _ _).0 q)
        | inr q ↦ inr ((text_eq_iff _ _).0 (rw q at e))
      ]
  validate_parts-IsSigned base_url url now _ method key a h = absurd (cc h)

  -- A URL is accepted only when it is the base URL with a known method, an expiry that has not
  -- passed, the signature of exactly that method, expiry and encoded key under the secret, and an
  -- encoding of the key that is returned; and that key is valid.
  pub validate-IsSigned :
      (url : Text) (now : ℕ) (base_url method key : Text)
      → validate_local_presigned_url library secret url now base_url ≡ ok (method, key)
      → IsSigned base_url url now method key
  unfolding validate_local_presigned_url
  validate-IsSigned url now base_url method key h =
      elim (Bool-cases (starts_with (rstrip_slashes base_url ++ slash) url)) [
        | inl e ↦
            (let (rest, q) = starts_with_split (rstrip_slashes base_url ++ slash) url e in
              validate_parts-IsSigned base_url url now (split_slashes 3 rest) method key
                (rw (join-split_slashes 3 rest) q)
                (rw (e, q, drop-append (rstrip_slashes base_url ++ slash) rest) at h))
        | inr e ↦ absurd (foreign e)
      ]
    where
      foreign : starts_with (rstrip_slashes base_url ++ slash) url ≡ false → ⊥
      foreign e = cc (rw e at h)
