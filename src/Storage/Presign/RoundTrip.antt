-- ===== src/Storage/Presign/RoundTrip.antt =====
-- The presigned URLs of src/storage/local.py, made and validated.
use lexicon_revision.Prelude.{
  >>=-ok, ok_injective, ℕ, zero, suc, ◌+◌, ◌*◌, ◌/◌, Text, text_HasEq, text_eq, text_eq_iff, codes,
  starts_with-append, take, true, false, ◌||◌, some, [], ◌∷◌, ◌++◌, append_assoc, ℤ, pos, negsuc,
  ok, ◌≡◌, ◌∙◌, refl, All,
}
use lexicon_revision.Storage.Keys.{validate_key}
use lexicon_revision.Storage.Keys.Segments.{slash}
use lexicon_revision.Storage.Presign.{
  PresignLibrary, Method, get, put, method_text, PresignedUrl, rstrip_slashes, split_slashes,
  second, is_past, signature_of, presign_at, presign_for, presign, validate_signed, validate_expiry,
  validate_parts, validate_local_presigned_url,
}
use lexicon_revision.Storage.Presign.Urls.{HasNoSlash, split_slashes-append, drop-append}

All-take : (P : ℕ → Type 0) (n : ℕ) (s : Text) → All P s → All P (take n s)
All-take P zero s h = tt
All-take P (suc n) [] h = tt
All-take P (suc n) (c ∷ s) (h, hs) = (h, All-take P n s hs)

method-HasNoSlash : (m : Method) → HasNoSlash (method_text m)
unfolding method_text
method-HasNoSlash get = (refl, (refl, (refl, tt)))
method-HasNoSlash put = (refl, (refl, (refl, tt)))

method-known :
    (m : Method)
    → (text_eq (method_text m) (codes "GET") || text_eq (method_text m) (codes "PUT")) ≡ true
unfolding method_text text_eq
method-known get = refl
method-known put = refl

module _ {Secret : Type 0} (library : PresignLibrary Secret) (secret : Secret) where
  -- what the standard library documents of its functions
  pub record IsFaithful : Type 0 where
    pub reads : (n : ℤ) → library.read (library.show n) ≡ some n
    pub unquotes : (key : Text) → library.unquote (library.quote key) ≡ key
    pub shows : (n : ℤ) → HasNoSlash (library.show n)
    pub digests : (message : Text) → HasNoSlash (library.hexdigest secret message)

  -- the part of a URL behind the base URL and a slash
  abbrev tail_of : Text → Text → Text → Text → Text
  tail_of method expires sig key =
      method ++ (codes "/" ++ (expires ++ (codes "/" ++ (sig ++ (codes "/" ++ key)))))

  split-tail_of :
      (m e s k : Text)
      → HasNoSlash m
      → HasNoSlash e
      → HasNoSlash s
      → split_slashes 3 (tail_of m e s k) ≡ m ∷ e ∷ s ∷ k ∷ []
  unfolding split_slashes
  split-tail_of m e s k hm he hs =
      rw
        (
          split_slashes-append 2 m (e ++ (codes "/" ++ (s ++ (codes "/" ++ k)))) hm,
          split_slashes-append 1 e (s ++ (codes "/" ++ k)) he,
          split_slashes-append 0 s k hs,
        )
        refl

  behind_prefix :
      (base_url rest : Text) (now : ℕ)
      → validate_local_presigned_url library secret
          (rstrip_slashes base_url ++ (slash ++ rest))
          now
          base_url
        ≡ validate_parts library secret now (split_slashes 3 rest)
  unfolding validate_local_presigned_url
  behind_prefix base_url rest now =
      rw
        (
          ← append_assoc (rstrip_slashes base_url) slash rest,
          starts_with-append (rstrip_slashes base_url ++ slash) rest,
          drop-append (rstrip_slashes base_url ++ slash) rest,
        )
        refl

  presigned-valid :
      (base_url : Text) (made later : ℕ) (method : Method) (key : Text) (n : ℕ)
      → IsFaithful
      → validate_key key ≡ ok tt
      → is_past
          (presign_at library secret (rstrip_slashes base_url) made method key n).expires_at
          later
        ≡ false
      → validate_local_presigned_url library secret
          (presign_at library secret (rstrip_slashes base_url) made method key n).url
          later
          base_url
        ≡ ok (method_text method, key)
  unfolding presign_at validate_parts validate_expiry validate_signed signature_of
  presigned-valid base_url made later method key n f v h =
      behind_prefix base_url (tail_of (method_text method) (library.show u) sig (library.quote key))
        later
      ∙ rw
          (
            split-tail_of (method_text method) (library.show u) sig (library.quote key)
                (method-HasNoSlash method) (f.shows u) (All-take _ 32 _ (f.digests _)),
            method-known method,
            f.reads u,
            h,
            (text_eq_iff sig sig).1 refl,
            f.unquotes key,
            v,
          )
          refl
    where
      u : ℤ
      u = pos ((made + n * second) / second)

      sig : Text
      sig = signature_of library secret (method_text method) u (library.quote key)

  -- A URL that `presign_get` or `presign_put` returned is accepted until it expires, and gives
  -- back its method and its key.
  pub validate-presign :
      (base_url : Text) (made later : ℕ) (method : Method) (key : Text) (expires_in_seconds : ℤ)
      (u : PresignedUrl)
      → IsFaithful
      → presign library secret base_url made method key expires_in_seconds ≡ ok u
      → is_past u.expires_at later ≡ false
      → validate_local_presigned_url library secret u.url later base_url
        ≡ ok (method_text method, key)
  unfolding presign presign_for
  validate-presign base_url made later method key (pos (suc n)) u f h late =
      let (_, v, e) = >>=-ok (validate_key key) _ u h in accepted v (ok_injective e)
    where
      accepted :
          validate_key key ≡ ok tt
          → presign_at library secret (rstrip_slashes base_url) made method key (suc n) ≡ u
          → validate_local_presigned_url library secret u.url later base_url
            ≡ ok (method_text method, key)
      accepted v e =
          rw (← e) (presigned-valid base_url made later method key (suc n) f v (rw (← e) at late))
  validate-presign base_url made later method key (pos zero) u f h late =
      let (_, _, e) = >>=-ok (validate_key key) _ u h in absurd (cc e)
  validate-presign base_url made later method key (negsuc n) u f h late =
      let (_, _, e) = >>=-ok (validate_key key) _ u h in absurd (cc e)
