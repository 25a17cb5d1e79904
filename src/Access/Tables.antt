-- ===== src/Access/Tables.antt =====
-- The tables that src/access/repository.py reads and writes, and its queries. A method is one
-- transaction, and transactions follow one another: the advisory locks have nothing to do here.
-- Columns that no method reads (row ids of links, `role`, `created_at`) are left out.
pub mod Memberships
pub mod Rules
use lexicon_revision.Prelude.{
  ℕ, Text, text_HasEq, codes, nat_eq, ltb, starts_with, ends_with, ◌==◌, Bool, true, false, not,
  ◌&&◌, ◌||◌, Option, none, some, List, [], ◌∷◌, ◌++◌, filter, Result, ok, err, ◌>>=◌, is_some,
  if◌then◌else◌,
}
use lexicon_revision.Access.Models.{
  CollectionAccess, ManualAccessOverride, AccessError, value_error,
}
use lexicon_revision.Access.Email.{require_normalized_email, email_domain}

pub record UserRow : Type 0 where
  pub id : Text
  pub email : Text
  pub email_verified : Bool

pub record ExternalIdentityRow : Type 0 where
  pub user_id : Text
  pub provider : Text
  pub external_subject : Text

pub data MembershipStatus : Type 0 where
  active inactive : MembershipStatus

pub record MembershipRow : Type 0 where
  pub user_id : Text
  pub community_id : Text
  pub status : MembershipStatus

pub data MatchMode : Type 0 where
  exact suffix : MatchMode
  unknown : Text → MatchMode

pub record EmailDomainRow : Type 0 where
  pub community_id : Text
  pub domain : Text
  pub match_mode : MatchMode
  pub is_active : Bool

pub record OverrideRow : Type 0 where
  pub email : Text
  pub community_id : Text
  pub note : Option Text
  pub is_active : Bool
  pub expires_at : Option ℕ

pub record CollectionRow : Type 0 where
  pub id : Text
  pub name : Text
  pub community_id : Option Text

pub record Tables : Type 0 where
  pub users : List UserRow
  pub identities : List ExternalIdentityRow
  pub memberships : List MembershipRow
  pub email_domains : List EmailDomainRow
  pub overrides : List OverrideRow
  pub collections : List CollectionRow

-- `.first()` of a `where`
unfoldable pub first {ℓ} : {A : Type ℓ} → (A → Bool) → List A → Option A
first p [] = none
first p (x ∷ xs) = let rest = first p xs in if p x then some x else rest

unfoldable pub is_active_status : MembershipStatus → Bool
is_active_status active = true
is_active_status inactive = false

unfoldable pub is_member : Text → Text → MembershipRow → Bool
is_member user_id community_id m =
    m.user_id == user_id && m.community_id == community_id && is_active_status m.status

unfoldable pub has_active_membership : Tables → Text → Text → Bool
has_active_membership t user_id community_id =
    is_some (first (is_member user_id community_id) t.memberships)

-- `insert … on conflict (user_id, community_id) do update set status = 'active'`
unfoldable pub upsert_active : Text → Text → List MembershipRow → List MembershipRow
upsert_active u c [] = record { user_id = u; community_id = c; status = active } ∷ []
upsert_active u c (m ∷ ms) =
    let rest = upsert_active u c ms in
    if m.user_id == u && m.community_id == c then record m { status = active } ∷ ms else m ∷ rest

unfoldable pub ensure_active_membership : Tables → Text → Text → Tables
ensure_active_membership t user_id community_id = record t {
  memberships = upsert_active user_id community_id t.memberships;
}

unfoldable pub get_collection_access : Tables → Text → Option CollectionAccess
get_collection_access t collection_name =
    elim (first (λ c. c.name == collection_name) t.collections) [
      | none ↦ none
      | some row ↦ some (record {
        collection_id = row.id;
        collection_name = row.name;
        community_id = row.community_id;
      })
    ]

-- `expires_at is null or expires_at > now()`
unfoldable pub in_force : ℕ → Option ℕ → Bool
in_force now none = true
in_force now (some expires_at) = ltb now expires_at

unfoldable pub domain_rule_matches : Text → Text → MatchMode → Result AccessError Bool
domain_rule_matches email_domain rule_domain exact = ok (email_domain == rule_domain)
domain_rule_matches email_domain rule_domain suffix =
    ok (email_domain == rule_domain || ends_with (codes "." ++ rule_domain) email_domain)
domain_rule_matches email_domain rule_domain (unknown mode) =
    err (value_error (codes "Unknown community email-domain match_mode: " ++ mode))

-- the loop over the active rules
unfoldable pub matching_rules :
    Text → List EmailDomainRow → Result AccessError (List EmailDomainRow)
matching_rules domain [] = ok []
matching_rules domain (rule ∷ rules) =
    let rest = matching_rules domain rules in
    do
      matches ← domain_rule_matches domain rule.domain rule.match_mode
      found ← rest
      ok (if matches then rule ∷ found else found)

module _ (lower : Text → Text) (now : ℕ) where
  unfoldable pub get_manual_access_override :
      Tables → Text → Result AccessError (Option ManualAccessOverride)
  get_manual_access_override t email = do
    normalized_email ← require_normalized_email lower (some email)
    ok
        (elim (first
          (λ (o : OverrideRow).
            o.email == normalized_email && o.is_active && in_force now o.expires_at)
          t.overrides) [
            | none ↦ none
            | some row ↦
                some
                  (record { email = row.email; community_id = row.community_id; note = row.note })
          ])

module _ (lower : Text → Text) where
  unfoldable pub list_matching_communities_for_email_domain :
      Tables → Text → Result AccessError (List EmailDomainRow)
  list_matching_communities_for_email_domain t email = do
    normalized_domain ← email_domain lower email
    matching_rules normalized_domain (filter (λ (r : EmailDomainRow). r.is_active) t.email_domains)
