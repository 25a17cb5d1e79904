-- ===== src/Access/Listing.antt =====
-- The access states that the listing of src/access/repository.py shows.
pub mod Agreement
use lexicon_revision.Prelude.{
  ℕ, Text, text_HasEq, text_eq, codes, ◌==◌, contains, Bool, true, false, not, ◌&&◌, ◌||◌,
  Bool-cases, Option, none, some, is_some, is_empty, List, [], ◌∷◌, ◌++◌, ◌≡◌, ◌↔◌, refl, arith,
  if◌then◌else◌, text_eq_comm,
}
use lexicon_revision.Access.Models.{
  RequestIdentity, AuthenticatedUser, AffiliationDecision, CollectionAccessState, accessible,
  locked_requires_signin, locked_wrong_affiliation, is_anonymous,
}
use lexicon_revision.Access.Tables.{
  Tables, MembershipRow, first, is_member, is_active_status, has_active_membership,
}
use lexicon_revision.Access.Service.{wrong_affiliation, may_read}

-- `_list_active_membership_community_ids`, from the memberships
unfoldable pub active_communities : Text → List MembershipRow → List Text
active_communities user_id [] = []
active_communities user_id (m ∷ ms) =
    let rest = active_communities user_id ms in
    if m.user_id == user_id && is_active_status m.status then m.community_id ∷ rest else rest

-- the ids for `resolved_user_id`, if there is one
unfoldable pub active_membership_community_ids : Tables → Option Text → List Text
active_membership_community_ids t none = []
active_membership_community_ids t (some user_id) = active_communities user_id t.memberships

abbrev pub any_members : Text
any_members = codes "This collection is restricted to members of this community"

unfoldable pub restricted_members_lock_reason : Option Text → Text
restricted_members_lock_reason none = any_members
restricted_members_lock_reason (some name) =
    if is_empty name
    then any_members
    else codes "This collection is restricted to " ++ (name ++ codes " members")

-- `affiliation_community_id is not None and affiliation_community_id != collection_community_id`
unfoldable pub is_other_community : Option Text → Text → Bool
is_other_community none community_id = false
is_other_community (some affiliation) community_id = not (affiliation == community_id)

unfoldable pub compute_access_state :
    RequestIdentity
    → Option Text
    → Option Text
    → Option Text
    → List Text
    → CollectionAccessState × Option Text
compute_access_state r none name affiliation active_ids = (accessible, none)
compute_access_state r (some community_id) name affiliation active_ids =
    if is_anonymous r
    then (locked_requires_signin, some (codes "Sign in to access this collection"))
    else if is_other_community affiliation community_id
    then (locked_wrong_affiliation, some (restricted_members_lock_reason name))
    else if contains active_ids community_id
    then (accessible, none)
    else (locked_wrong_affiliation, some (restricted_members_lock_reason name))

unfoldable pub is_accessible : CollectionAccessState → Bool
is_accessible accessible = true
is_accessible locked_requires_signin = false
is_accessible locked_wrong_affiliation = false

contains-active_communities :
    (u c : Text) (ms : List MembershipRow)
    → contains (active_communities u ms) c ≡ is_some (first (is_member u c) ms)
unfolding contains active_communities first is_member
contains-active_communities u c [] = refl
contains-active_communities u c (m ∷ ms) =
    ground (arith, text_eq_comm c m.community_id, contains-active_communities u c ms)

-- what `list_collections` passes on of the affiliation and the user
abbrev pub community_of : Option AffiliationDecision → Option Text
community_of none = none
community_of (some decision) = decision.community_id

abbrev pub id_of_user : Option AuthenticatedUser → Option Text
id_of_user none = none
id_of_user (some user) = some user.user_id

-- an affiliation that `_resolve_affiliation` returns
abbrev pub IsSettled : Option AffiliationDecision → Type 0
IsSettled none = Unit
IsSettled (some decision) = (is_some decision.community_id ≡ true)

-- A request is shown a collection as accessible exactly if the checks of `authorize_collection` let it
-- pass, for an anonymous request without a user and for any other with the user that it resolves to.
pub compute_access_state-may_read :
    (t : Tables) (r : RequestIdentity) (user : Option AuthenticatedUser)
    (affiliation : Option AffiliationDecision) (community_id name : Option Text)
    → is_some user ≡ not (is_anonymous r)
    → IsSettled affiliation
    → is_accessible
        (compute_access_state r community_id name
          (community_of affiliation)
          (active_membership_community_ids t (id_of_user user))).0
      ≡ may_read t user affiliation community_id
unfolding compute_access_state is_accessible may_read wrong_affiliation is_other_community
    active_membership_community_ids has_active_membership
compute_access_state-may_read t r user affiliation none name h k = refl
compute_access_state-may_read t r none affiliation (some c) name h k = ground arith
compute_access_state-may_read t r (some u) none (some c) name h k =
    ground (arith, contains-active_communities u.user_id c t.memberships)
compute_access_state-may_read t r (some u) (some d) (some c) name h k =
    ground (arith, contains-active_communities u.user_id c t.memberships)
