-- ===== src/Access/Tables/Rules.antt =====
-- The e-mail domains that a rule of src/access/repository.py covers.
use lexicon_revision.Prelude.{
  Text, text_HasEq, codes, ◌==◌, Bool, true, false, ◌||◌, ◌++◌, ◌≡◌, ◌↔◌, ◌⊎◌, inl, inr, refl,
  Result, ok, text_eq, text_eq_iff, ends_with, ends_with_split, ends_with-append, Bool-cases,
}
use lexicon_revision.Access.Models.{AccessError}
use lexicon_revision.Access.Tables.{domain_rule_matches, suffix}

-- the domain itself, or one of its subdomains
abbrev pub Covers : Text → Text → Type 0
Covers rule_domain domain =
    (domain ≡ rule_domain)
    ⊎ ((subdomain : Text) × (domain ≡ subdomain ++ (codes "." ++ rule_domain)))

abbrev answer : Bool → Result AccessError Bool
answer b = ok b

answer_inv : (b : Bool) → answer b ≡ ok true → b ≡ true
answer_inv true e = refl
answer_inv false e = cc

-- A `suffix` rule covers its own domain and the domains that end in a dot and it, and no others.
pub domain_rule_matches-Covers :
    (domain rule_domain : Text)
    → (domain_rule_matches domain rule_domain suffix ≡ ok true) ↔ Covers rule_domain domain
unfolding domain_rule_matches
domain_rule_matches-Covers d r = (forth, back)
  where
    forth : answer (d == r || ends_with (codes "." ++ r) d) ≡ ok true → Covers r d
    forth e = elim (Bool-cases (text_eq d r)) [
      | inl q ↦ inl ((text_eq_iff d r).0 q)
      | inr q ↦ inr (
          ends_with_split (codes "." ++ r) d
            (rw q at (answer_inv (d == r || ends_with (codes "." ++ r) d) e)))
    ]

    back : Covers r d → answer (d == r || ends_with (codes "." ++ r) d) ≡ ok true
    back (inl q) = rw ((text_eq_iff d r).1 q) refl
    back (inr (s, q)) = elim (Bool-cases (text_eq d r)) [
      | inl p ↦ rw p refl
      | inr p ↦ rw (p, q, ends_with-append (codes "." ++ r) s) refl
    ]
