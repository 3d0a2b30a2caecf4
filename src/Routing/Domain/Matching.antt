-- ===== src/Routing/Domain/Matching.antt =====
-- What a domain pattern matches, and which rule `match_domain` chooses.
use route_guard.Prelude.{
  ℕ, ◌<◌, ◌≡◌, refl, ap, sym, ◌∙◌, ◌↔◌, ◌⊎◌, inl, inr, Bool, true, false, ◌&&◌, ◌||◌, [], ◌∷◌, ◌++◌,
  arith, length, list_beq, nat_eq, list_beq_iff, ltb, ltb→lt, lt→ltb, length-append, and-split,
}
use route_guard.Prelude.Text.{
  Text, bytes, starts_with, ends_with, ends_with_iff, to_ascii_lowercase, trim_end_matches,
  to_ascii_lowercase_idem, trim_end_matches_idem, trim_end_matches-append,
}
use route_guard.Core.Net.{Platform}
use route_guard.Routing.Domain.{normalize_domain, domain_matches}

-- A trailing dot of the host makes no difference.
pub normalize_domain-append_dot :
    (host : Text) → normalize_domain (host ++ b'.' ∷ []) ≡ normalize_domain host
unfolding normalize_domain
normalize_domain-append_dot host = ap to_ascii_lowercase (trim_end_matches-append b'.' host)

trim_lower :
    (s : Text)
    → trim_end_matches b'.' (to_ascii_lowercase s) ≡ to_ascii_lowercase (trim_end_matches b'.' s)
unfolding trim_end_matches to_ascii_lowercase
trim_lower [] = refl
trim_lower (c ∷ s) = ground (arith, trim_lower s)

pub normalize_domain_idem :
    (host : Text) → normalize_domain (normalize_domain host) ≡ normalize_domain host
unfolding normalize_domain
normalize_domain_idem host =
    ap to_ascii_lowercase (
      trim_lower (trim_end_matches b'.' host)
      ∙ ap to_ascii_lowercase (trim_end_matches_idem b'.' host))
    ∙ to_ascii_lowercase_idem (trim_end_matches b'.' host)

or-split : (a b : Bool) → (a || b) ≡ true → (a ≡ true) ⊎ (b ≡ true)
or-split a b h = ground arith

nonempty :
    (rest name : Text)
    → ((q : Text) × (name ≡ q ++ (b'.' ∷ rest)))
    → length (b'.' ∷ rest) < length name
    → (b : ℕ) × (q : Text) × (name ≡ (b ∷ q) ++ (b'.' ∷ rest))
nonempty rest name ([], e) h = absurd (omega (arith, ap {B = ℕ} length e))
nonempty rest name (b ∷ q, e) h = (b, q, e)

wild-append :
    (name rest : Text) (b : ℕ) (q : Text)
    → name ≡ (b ∷ q) ++ (b'.' ∷ rest)
    → (ends_with name (b'.' ∷ rest) && ltb (length (b'.' ∷ rest)) (length name)) ≡ true
wild-append name rest b q e =
    let tail = (ends_with_iff name (b'.' ∷ rest)).1 (b ∷ q, e) in
    let longer : length (b'.' ∷ rest) < length name =
      omega (arith, ap {B = ℕ} length e, length-append {0} q (b'.' ∷ rest)) in
    ground (arith, tail, lt→ltb _ _ longer)

module _ (env : Platform) where
  open env use {to_lowercase}

  -- The pattern as `domain_matches` reads it.
  abbrev pub folded : Text → Text
  folded pattern = to_lowercase (trim_end_matches b'.' pattern)

  wildcard-eq :
      (pattern host rest : Text)
      → folded pattern ≡ bytes "*." ++ rest
      → domain_matches env pattern host ≡ (
          ends_with (normalize_domain host) (b'.' ∷ rest)
          && ltb (length (b'.' ∷ rest)) (length (normalize_domain host)))
  unfolding domain_matches starts_with
  wildcard-eq pattern host rest e = rw e

  plain-eq :
      (pattern host : Text)
      → starts_with (folded pattern) (bytes "*.") ≡ false
      → domain_matches env pattern host ≡ (
          list_beq (normalize_domain host) (folded pattern)
          || ends_with (normalize_domain host) (b'.' ∷ folded pattern))
  unfolding domain_matches
  plain-eq pattern host h = rw h

  -- `*.` and a suffix match the hosts with at least one byte before `.` and the suffix, so never the
  -- suffix itself.
  pub domain_matches-wildcard :
      (pattern host rest : Text)
      → folded pattern ≡ bytes "*." ++ rest
      → (domain_matches env pattern host ≡ true)
        ↔ ((b : ℕ) × (q : Text) × (normalize_domain host ≡ (b ∷ q) ++ (b'.' ∷ rest)))
  domain_matches-wildcard pattern host rest e =
      let same = wildcard-eq pattern host rest e in
      (
        λ h.
            let (tail, longer) =
              and-split (ends_with (normalize_domain host) (b'.' ∷ rest))
                (ltb (length (b'.' ∷ rest)) (length (normalize_domain host))) (sym same ∙ h) in
            nonempty rest (normalize_domain host)
              ((ends_with_iff (normalize_domain host) (b'.' ∷ rest)).0 tail) (ltb→lt _ _ longer),
        λ (b, q, at_end). same ∙ wild-append (normalize_domain host) rest b q at_end,
      )

  -- A pattern without `*.` matches the host that is equal to it and the hosts that end in a dot and
  -- the pattern, so no host that only ends in the same letters.
  pub domain_matches-plain :
      (pattern host : Text)
      → starts_with (folded pattern) (bytes "*.") ≡ false
      → (domain_matches env pattern host ≡ true) ↔ (
          (normalize_domain host ≡ folded pattern)
          ⊎ ((q : Text) × (normalize_domain host ≡ q ++ (b'.' ∷ folded pattern))))
  domain_matches-plain pattern host h =
      let name = normalize_domain host in
      let exact = list_beq_iff name (folded pattern) in
      let tail = ends_with_iff name (b'.' ∷ folded pattern) in
      let same = plain-eq pattern host h in
      (
        λ m. elim (or-split _ _ (sym same ∙ m)) [
          | inl a ↦ inl (exact.0 a)
          | inr b ↦ inr (tail.0 b)
        ],
        λ c. elim c [
          | inl a ↦ ground (arith, same, exact.1 a)
          | inr b ↦ ground (arith, same, tail.1 b)
        ],
      )

  -- A host with a trailing dot matches what it matches without.
  pub domain_matches-append_dot :
      (pattern host : Text)
      → domain_matches env pattern (host ++ b'.' ∷ []) ≡ domain_matches env pattern host
  unfolding domain_matches
  domain_matches-append_dot pattern host = rw (normalize_domain-append_dot host)

  -- Looking up a host that is normalized already, as the store does, changes nothing.
  pub domain_matches-normalize_domain :
      (pattern host : Text)
      → domain_matches env pattern (normalize_domain host) ≡ domain_matches env pattern host
  unfolding domain_matches
  domain_matches-normalize_domain pattern host = rw (normalize_domain_idem host)
