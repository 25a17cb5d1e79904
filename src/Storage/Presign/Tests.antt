-- ===== src/Storage/Presign/Tests.antt =====
-- A presigned URL.
use lexicon_revision.Prelude.{
  ℕ, ◌+◌, ◌-◌, length, arith, nat_eq, Text, codes, Option, none, some, if◌then◌else◌, [], ◌∷◌, ℤ,
  pos, negsuc, ok, err, ◌≡◌, refl,
}
use lexicon_revision.Storage.Keys.{auth_error, type_error, storage_error}
use lexicon_revision.Storage.Presign.{
  PresignLibrary, get, method_text, rstrip_slashes, split_slashes, is_past, message_of,
  signature_of, presign_at, presign_for, presign, compare_failure, is_ascii, validate_signed,
  validate_expiry, validate_parts, validate_local_presigned_url,
}
use lexicon_revision.Storage.Presign.Urls.{IsSigned, HasNoSlash, validate-IsSigned}
use lexicon_revision.Storage.Presign.RoundTrip.{IsFaithful, validate-presign}
use lexicon_revision.Storage.Tests.{keys, report}

-- a sign and one code point for each number
abbrev show_number : ℤ → Text
show_number (pos n) = 43 ∷ (n + 48) ∷ []
show_number (negsuc n) = 45 ∷ (n + 48) ∷ []

abbrev read_number : Text → Option ℤ
read_number (s ∷ c ∷ []) = if nat_eq s 43 then some (pos (c - 48)) else some (negsuc (c - 48))
read_number _ = none

abbrev library : PresignLibrary ℕ
library = record {
  hexdigest = λ secret message. (secret + length message + 48) ∷ [];
  quote = λ key. key;
  unquote = λ key. key;
  show = show_number;
  read = read_number;
}

library_faithful : IsFaithful library 5
library_faithful = record {
  reads = reads;
  unquotes = λ key. refl;
  shows = shows;
  digests = λ message. (ground arith, tt);
}
  where
    reads : (n : ℤ) → read_number (show_number n) ≡ some n
    reads (pos n) = ground arith
    reads (negsuc n) = ground arith

    shows : (n : ℤ) → HasNoSlash (show_number n)
    shows (pos n) = (refl, (ground arith, tt))
    shows (negsuc n) = (refl, (ground arith, tt))

presigning : Unit {0}
unfolding keys compare_failure is_ascii method_text rstrip_slashes split_slashes is_past message_of
    signature_of presign_at presign_for presign validate_signed validate_expiry validate_parts
    validate_local_presigned_url
presigning = tt

abbrev base : Text
base = codes "http://h/"

-- made at second 2, for 3 seconds, with the magnitude 5 as the expiry
abbrev url : Text
url = codes "http://h/GET/+5/K/papers/2020.pdf"

made :
    (presign library 5 base 2_000_000 get report (pos 3))
    ≡ ok (record { url = url; expires_at = pos 5; method = get; key = report })
unfolding presigning
made = refl

validate-presign_example :
    validate_local_presigned_url library 5 url 4_999_999 base ≡ ok (codes "GET", report)
unfolding presigning
validate-presign_example =
    validate-presign library 5 base 2_000_000 4_999_999 get report (pos 3)
      (record { url = url; expires_at = pos 5; method = get; key = report }) library_faithful refl
      refl

expired : validate_local_presigned_url library 5 url 5_000_000 base ≡ err storage_error
unfolding presigning
expired = refl

other_key :
    validate_local_presigned_url library 5 (codes "http://h/GET/+5/K/papers/20.pdf") 4 base
    ≡ err auth_error
unfolding presigning
other_key = refl

not_ascii :
    validate_local_presigned_url library 5 (codes "http://h/GET/+5/é/papers/20.pdf") 4 base
    ≡ err type_error
unfolding presigning
not_ascii = refl

validate-IsSigned_example : IsSigned library 5 base url 4_999_999 (codes "GET") report
unfolding presigning
validate-IsSigned_example = validate-IsSigned library 5 url 4_999_999 base (codes "GET") report refl
