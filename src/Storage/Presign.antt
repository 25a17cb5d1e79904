-- ===== src/Storage/Presign.antt =====
-- The presigned URLs of src/storage/local.py. Times are in microseconds.
pub mod Urls
pub mod RoundTrip
mod Tests
use lexicon_revision.Prelude.{
  ℕ, zero, suc, ◌+◌, ◌*◌, ◌/◌, nat_eq, leb, ltb, Text, text_HasEq, ◌==◌, text_eq, codes,
  starts_with, length, take, drop, is_empty, Bool, true, false, ◌||◌, ◌&&◌, not, Option, none, some,
  List, [], ◌∷◌, ◌++◌, ℤ, pos, negsuc, Result, ok, err, ◌>>=◌, if◌then◌else◌,
}
use lexicon_revision.Storage.Keys.{
  StorageError, storage_error, auth_error, value_error, type_error, all_chars, validate_key,
}
use lexicon_revision.Storage.Keys.Segments.{push}

-- `hexdigest secret message` is `hmac.new(secret, message.encode(), hashlib.sha256).hexdigest()`,
-- `quote` is that with `safe="/"`, `show` is what an f-string writes of an `int`, and `read` is
-- `int` of a text, which raises on `none`.
pub record PresignLibrary (Secret : Type 0) : Type 0 where
  pub hexdigest : Secret → Text → Text
  pub quote : Text → Text
  pub unquote : Text → Text
  pub show : ℤ → Text
  pub read : Text → Option ℤ

pub data Method : Type 0 where
  get put : Method

unfoldable pub is_ascii : ℕ → Bool
is_ascii c = ltb c 128

-- what follows where the signatures differ; `hmac.compare_digest` does not take a text that is not
-- ASCII, as the digest is
unfoldable pub compare_failure : Text → StorageError
compare_failure sig = if all_chars is_ascii sig then auth_error else type_error

unfoldable pub method_text : Method → Text
method_text get = codes "GET"
method_text put = codes "PUT"

pub record PresignedUrl : Type 0 where
  pub url : Text
  pub expires_at : ℤ
  pub method : Method
  pub key : Text

-- `s.rstrip("/")`
unfoldable pub rstrip_slashes : Text → Text
rstrip_slashes [] = []
rstrip_slashes (c ∷ s) =
    let rest = rstrip_slashes s in if is_empty rest && nat_eq c 47 then [] else c ∷ rest

-- `s.split("/", n)` is `split_slashes n s`.
unfoldable pub split_slashes : ℕ → Text → List Text
split_slashes zero s = s ∷ []
split_slashes (suc n) [] = [] ∷ []
split_slashes (suc n) (c ∷ s) =
    let fewer = split_slashes n s in
    let longer = split_slashes (suc n) s in if nat_eq c 47 then [] ∷ fewer else push c longer

abbrev pub second : ℕ
second = 1_000_000

-- `expires_unix <= now`, for a time that may be negative
unfoldable pub is_past : ℤ → ℕ → Bool
is_past (pos n) now = leb (n * second) now
is_past (negsuc n) now = true

module _ {Secret : Type 0} (library : PresignLibrary Secret) (secret : Secret) where
  unfoldable pub message_of : Text → ℤ → Text → Text
  message_of method expires_unix encoded_key =
      method ++ (codes ":" ++ (library.show expires_unix ++ (codes ":" ++ encoded_key)))

  -- `…hexdigest()[:32]`
  unfoldable pub signature_of : Text → ℤ → Text → Text
  signature_of method expires_unix encoded_key =
      take 32 (library.hexdigest secret (message_of method expires_unix encoded_key))

  -- `_presign` of the URL's method at the time `now`
  unfoldable pub presign_at : Text → ℕ → Method → Text → ℕ → PresignedUrl
  presign_at base_url now method key expires_in_seconds =
      let expires_unix : ℤ = pos ((now + expires_in_seconds * second) / second) in
      let encoded_key : Text = library.quote key in
      let sig : Text = signature_of (method_text method) expires_unix encoded_key in
      record {
        url =
            base_url
            ++ (codes "/"
                ++ (method_text method
                    ++ (codes "/"
                        ++ (library.show expires_unix
                            ++ (codes "/" ++ (sig ++ (codes "/" ++ encoded_key)))))));
        expires_at = expires_unix;
        method = method;
        key = key;
      }

  -- `if expires_in_seconds <= 0: raise`, and `_presign`
  unfoldable pub presign_for : Text → ℕ → Method → Text → ℤ → Result StorageError PresignedUrl
  presign_for base_url now method key (negsuc n) = err value_error
  presign_for base_url now method key (pos zero) = err value_error
  presign_for base_url now method key (pos (suc n)) =
      ok (presign_at base_url now method key (suc n))

  -- `presign_get` and `presign_put`, where `base` is what the store was built with
  unfoldable pub presign : Text → ℕ → Method → Text → ℤ → Result StorageError PresignedUrl
  presign base now method key expires_in_seconds =
      validate_key key
      >>= (λ _. presign_for (rstrip_slashes base) now method key expires_in_seconds)

  -- behind the test of the expiry's text
  unfoldable pub validate_signed : ℕ → Text → ℤ → Text → Text → Result StorageError (Text × Text)
  validate_signed now method expires_unix sig encoded_key =
      if is_past expires_unix now
      then err storage_error
      else (if text_eq sig (signature_of method expires_unix encoded_key)
          then (validate_key (library.unquote encoded_key)
              >>= (λ _. ok (method, library.unquote encoded_key)))
          else err (compare_failure sig))

  -- `int(expires_str)`
  unfoldable pub validate_expiry :
      ℕ → Text → Option ℤ → Text → Text → Result StorageError (Text × Text)
  validate_expiry now method none sig encoded_key = err auth_error
  validate_expiry now method (some expires_unix) sig encoded_key =
      validate_signed now method expires_unix sig encoded_key

  -- the parts of the URL behind the prefix
  unfoldable pub validate_parts : ℕ → List Text → Result StorageError (Text × Text)
  validate_parts now (method ∷ expires_str ∷ sig ∷ encoded_key ∷ []) =
      if text_eq method (codes "GET") || text_eq method (codes "PUT")
      then validate_expiry now method (library.read expires_str) sig encoded_key
      else err auth_error
  validate_parts now _ = err auth_error

  unfoldable pub validate_local_presigned_url : Text → ℕ → Text → Result StorageError (Text × Text)
  validate_local_presigned_url url now base_url =
      let prefix : Text = rstrip_slashes base_url ++ codes "/" in
      if starts_with prefix url
      then validate_parts now (split_slashes 3 (drop (length prefix) url))
      else err auth_error
