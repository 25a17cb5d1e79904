-- ===== src/Access/Affiliation/Decision.antt =====
-- Which community src/access/affiliation.py decides on.
use lexicon_revision.Prelude.{
  ℕ, Text, text_HasEq, to_set, to_set-IsIn, IsIn-to_set, IsNodup-to_set, IsIn, All, All-of_IsIn,
  none, some, List, [], ◌∷◌, map, ◌≡◌, ◌≢◌, ◌⊎◌, inl, inr, refl, ok,
}
use lexicon_revision.Access.Models.{
  AffiliationDecision, unsupported_email_domain, ambiguous_email_domain,
}
use lexicon_revision.Access.Email.{require_normalized_email}
use lexicon_revision.Access.Tables.{
  Tables, EmailDomainRow, get_manual_access_override, list_matching_communities_for_email_domain,
}
use lexicon_revision.Access.Affiliation.{
  decide_community, decide_matches, resolve_by_domain, resolve_verified_email,
}

-- the communities of the rules
abbrev pub communities_of : List EmailDomainRow → List Text
communities_of rules = map (λ (m : EmailDomainRow). m.community_id) rules

-- The decision that goes with what the matching rules say: one community, none, or two that differ.
abbrev pub Decides : List Text → AffiliationDecision → Type 0
Decides ids decision =
    ((community_id : Text) × (decision.community_id ≡ some community_id)
      × IsIn community_id ids
      × All (λ d. d ≡ community_id) ids)
    ⊎ ((decision.community_id ≡ none)
        × (((decision.deny_reason ≡ some unsupported_email_domain) × (ids ≡ []))
            ⊎ ((decision.deny_reason ≡ some ambiguous_email_domain)
                × ((c : Text) × (d : Text) × (c ≢ d) × IsIn c ids × IsIn d ids))))

none_left : (ids : List Text) → to_set ids ≡ [] → ids ≡ []
none_left [] e = refl
none_left (c ∷ ids) e = absurd (rw e at (IsIn-to_set (c ∷ ids) c (inl refl)))

Decides-decide_community :
    (ids set : List Text) → to_set ids ≡ set → Decides ids (decide_community set)
unfolding decide_community
Decides-decide_community ids [] e = inr (refl, inl (refl, none_left ids e))
Decides-decide_community ids (c ∷ []) e = inl (
  c,
  refl,
  to_set-IsIn ids c (rw e (inl refl)),
  All-of_IsIn (λ d. d ≡ c) ids (λ d m. only d (rw e at (IsIn-to_set ids d m))),
)
  where
    only : (d : Text) → IsIn d (c ∷ []) → d ≡ c
    only d (inl q) = q
    only d (inr m) = absurd m
Decides-decide_community ids (c ∷ d ∷ rest) e = inr (
  refl,
  inr (
    refl,
    (
      c,
      d,
      (rw e at (IsNodup-to_set ids)).0.0,
      to_set-IsIn ids c (rw e (inl refl)),
      to_set-IsIn ids d (rw e (inr (inl refl))),
    ),
  ),
)

module _ (lower : Text → Text) (now : ℕ) where
  -- Without an override in force the decision is a community exactly if the active rules that match
  -- the domain all name it, and there is one.
  pub resolve_verified_email-Decides :
      (t : Tables) (email normalized : Text) (rules : List EmailDomainRow)
      → require_normalized_email lower (some email) ≡ ok normalized
      → get_manual_access_override lower now t normalized ≡ ok none
      → list_matching_communities_for_email_domain lower t normalized ≡ ok rules
      → (decision : AffiliationDecision) × (resolve_verified_email lower now t email ≡ ok decision)
        × Decides (communities_of rules) decision
  unfolding resolve_verified_email resolve_by_domain decide_matches
  resolve_verified_email-Decides t email normalized rules e f g = (
    decide_matches rules,
    simp (resolve_verified_email, resolve_by_domain, e, f, g),
    Decides-decide_community (communities_of rules) (to_set (communities_of rules)) refl,
  )
