-- ===== src/Access/Affiliation.antt =====
-- src/access/affiliation.py: the community that a verified e-mail address belongs to.
pub mod Decision
use lexicon_revision.Prelude.{
  ℕ, Text, text_HasEq, to_set, Option, none, some, List, [], ◌∷◌, map, Result, ok, err, ◌>>=◌,
}
use lexicon_revision.Access.Models.{
  AffiliationDecision, unsupported_email_domain, ambiguous_email_domain, ManualAccessOverride,
  AccessError,
}
use lexicon_revision.Access.Email.{require_normalized_email}
use lexicon_revision.Access.Tables.{
  Tables, EmailDomainRow, get_manual_access_override, list_matching_communities_for_email_domain,
}

-- from `community_ids`, the set of the communities that match
unfoldable pub decide_community : List Text → AffiliationDecision
decide_community [] = record { community_id = none; deny_reason = some unsupported_email_domain }
decide_community (c ∷ []) = record { community_id = some c; deny_reason = none }
decide_community (c ∷ d ∷ rest) = record {
  community_id = none;
  deny_reason = some ambiguous_email_domain;
}

unfoldable pub decide_matches : List EmailDomainRow → AffiliationDecision
decide_matches domain_matches = decide_community (to_set (map (λ m. m.community_id) domain_matches))

module _ (lower : Text → Text) (now : ℕ) where
  -- the rest of `resolve_verified_email` once the override has been looked up
  unfoldable pub resolve_by_domain :
      Tables → Text → Option ManualAccessOverride → Result AccessError AffiliationDecision
  resolve_by_domain t normalized_email (some manual_override) =
      ok (record { community_id = some manual_override.community_id; deny_reason = none })
  resolve_by_domain t normalized_email none = do
    domain_matches ← list_matching_communities_for_email_domain lower t normalized_email
    ok (decide_matches domain_matches)

  unfoldable pub resolve_verified_email : Tables → Text → Result AccessError AffiliationDecision
  resolve_verified_email t email = do
    normalized_email ← require_normalized_email lower (some email)
    manual_override ← get_manual_access_override lower now t normalized_email
    resolve_by_domain t normalized_email manual_override
