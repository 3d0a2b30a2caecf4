-- ===== src/Wfp/Filters/Installing.antt =====
-- What the platform holds after `install_network_lock` of `crates/routeguard-wfp/src/filters.rs`.
use route_guard.Prelude.{
  ◌||◌, append_nil, append_assoc, ℕ, suc, ◌≡◌, refl, Bool, true, false, Option, none, some, List,
  [], ◌∷◌, ◌++◌, length, length-append, nat_beq, contains, nat_eq, if◌then◌else◌, Option-cases, inl,
  inr, arith,
}
use route_guard.Prelude.Text.{Text, bytes}
use route_guard.Prelude.Decimal.{decimal}
use route_guard.Prelude.Result.{Result, ok, err, and_then-eq, is_ok}
use route_guard.Core.Net.{SocketAddr}
use route_guard.Core.Transport.{TransportPermitRule}
use route_guard.Wfp.{Platform, Laws, WfpError, FilterRule, network_lock_error}
use route_guard.Wfp.Filters
use route_guard.Wfp.Filters.{
  Session, Rule, Part, Progress, NetworkLockPolicy, ◌then◌, push, plain_block, prefixed, lan_cidrs,
}

-- The rule that stands at an identifier, `old` where it is none of the new ones.
abbrev pub expected :
    {Mask : Type 0}
    → List ℕ
    → List (FilterRule Mask)
    → ℕ
    → Option (FilterRule Mask)
    → Option (FilterRule Mask)
expected [] rules id old = old
expected (i ∷ ids) [] id old = old
expected (i ∷ ids) (r ∷ rules) id old = if nat_beq i id then some r else expected ids rules id old

expected-snoc :
    {Mask : Type 0} (ids : List ℕ) (rules : List (FilterRule Mask)) (new id : ℕ)
    (r : FilterRule Mask) (old : Option (FilterRule Mask))
    → length ids ≡ length rules
    → contains ids new ≡ false
    → expected (ids ++ new ∷ []) (rules ++ r ∷ []) id old
      ≡ (if nat_beq new id then some r else expected ids rules id old)
expected-snoc [] [] new id r old same fresh = refl
expected-snoc [] (s ∷ rules) new id r old same fresh = absurd (omega arith)
expected-snoc (i ∷ ids) [] new id r old same fresh = absurd (omega arith)
expected-snoc (i ∷ ids) (s ∷ rules) new id r old same fresh =
    ground (arith, fresh, expected-snoc ids rules new id r old (omega arith))

-- An identifier that has no rule is none of the new ones.
expected-none :
    {Mask : Type 0} (ids : List ℕ) (rules : List (FilterRule Mask)) (id : ℕ)
    (old : Option (FilterRule Mask))
    → length ids ≡ length rules
    → expected ids rules id old ≡ none
    → contains ids id ≡ false
expected-none [] rules id old same h = refl
expected-none (i ∷ ids) [] id old same h = absurd (omega arith)
expected-none (i ∷ ids) (s ∷ rules) id old same h =
    ground (arith, h, expected-none ids rules id old (omega arith))

pub expected-outside :
    {Mask : Type 0} (ids : List ℕ) (rules : List (FilterRule Mask)) (id : ℕ)
    (old : Option (FilterRule Mask))
    → contains ids id ≡ false
    → expected ids rules id old ≡ old
expected-outside [] rules id old h = refl
expected-outside (i ∷ ids) [] id old h = refl
expected-outside (i ∷ ids) (s ∷ rules) id old h =
    ground (arith, h, expected-outside ids rules id old)

contains-snoc :
    (ids : List ℕ) (new id : ℕ)
    → contains (ids ++ new ∷ []) id ≡ (contains ids id || nat_beq new id)
contains-snoc [] new id = ground arith
contains-snoc (i ∷ ids) new id = ground (arith, contains-snoc ids new id)

module _ (wfp : Platform) (laws : Laws wfp) where
  -- Since `e`, exactly these rules have come in, under the identifiers of the progress.
  abbrev pub IsInstalled : wfp.Engine → Progress wfp → List (Rule wfp) → Type 0
  IsInstalled e p rules =
      ((id : ℕ) → laws.filters p.session.engine id ≡ expected p.ids rules id (laws.filters e id))
      × (length p.ids ≡ length rules)
      × ((id : ℕ) → contains p.ids id ≡ true → laws.filters e id ≡ none)

  -- Without an error, a part brings these rules in.
  abbrev pub Adds : Part wfp → List (Rule wfp) → Type 0
  Adds f rules =
      (e : wfp.Engine) (p : Progress wfp) (before : List (Rule wfp))
      → IsInstalled e p before
      → is_ok (f p).1 ≡ true
      → IsInstalled e (f p).0 (before ++ rules)

  pub push-Adds :
      (error : WfpError) (rule : Rule wfp)
      → Adds (push wfp (Filters.add_filter wfp error rule)) (rule ∷ [])
  unfolding Filters.add_filter
  push-Adds error rule e p before (view, same, unused) h =
      elim (Option-cases (wfp.add_filter rule p.session.engine).1) [
        | inl failed ↦ absurd (ground (arith, failed, h))
        | inr (new, added) ↦
            let free : laws.filters p.session.engine new ≡ none =
              ground (arith, added, laws.add_filter-free rule p.session.engine) in
            let fresh : contains p.ids new ≡ false =
              expected-none p.ids before new (laws.filters e new) same
                (ground (arith, free, view new)) in
            rw added (
              λ id. ground (
                arith,
                added,
                laws.filters-add_filter rule p.session.engine id,
                view id,
                expected-snoc p.ids before new id rule (laws.filters e id) same fresh,
              ),
              omega (arith, length-append p.ids (new ∷ []), length-append before (rule ∷ []), same),
              λ id there. ground (
                arith,
                there,
                unused id,
                contains-snoc p.ids new id,
                free,
                view new,
                expected-outside p.ids before new (laws.filters e new) fresh,
              ),
            )
      ]

  pub skip-Adds : Adds (Filters.skip wfp) []
  skip-Adds e p before view h = rw (append_nil before) view

  pub then-Adds :
      (f g : Part wfp) (rules more : List (Rule wfp))
      → Adds f rules
      → Adds g more
      → Adds (Filters.◌then◌ wfp f g) (rules ++ more)
  then-Adds f g rules more first second e p before view h =
      let (u, done, same) = and_then-eq (f p) (λ p' u. g p') h in
      rw (same, append_assoc before rules more)
        (second e (f p).0 (before ++ rules) (first e p before view (ground (arith, done)))
          (rw same at h))

  -- The rule that `add_permit_ip` makes of a network.
  abbrev pub permit_made : Text → Result WfpError wfp.IpAddrMask → List (Rule wfp)
  permit_made suffix (err e) = []
  permit_made suffix (ok mask) = Filters.permit_ip wfp suffix mask ∷ []

  abbrev pub permit_rule : Text → Text → List (Rule wfp)
  permit_rule suffix cidr = permit_made suffix (Filters.from_str wfp cidr)

  pub add_permit_ip-Adds :
      (suffix cidr : Text)
      → Adds (push wfp (Filters.add_permit_ip wfp suffix cidr)) (permit_rule suffix cidr)
  unfolding Filters.add_permit_ip
  add_permit_ip-Adds suffix cidr e p before view h =
      (elim (Filters.from_str wfp cidr)
          as (λ r.
            (mask : Result WfpError wfp.IpAddrMask)
            → mask ≡ r
            → is_ok (push wfp (Filters.add_permit_mask wfp suffix r) p).1 ≡ true
            → IsInstalled e (push wfp (Filters.add_permit_mask wfp suffix r) p).0
                (before ++ permit_made suffix r)) [
                  | err x ↦ λ m same bad. absurd (ground (arith, bad))
                  | ok mask ↦ λ m same good.
                      push-Adds network_lock_error (Filters.permit_ip wfp suffix mask) e p before
                        view good
                ])
        (Filters.from_str wfp cidr) refl h

  abbrev pub lan_rules : List (Text × Text) → List (Rule wfp)
  lan_rules [] = []
  lan_rules ((name, cidr) ∷ rest) = permit_rule name cidr ++ lan_rules rest

  permit_lan-Adds :
      (cidrs : List (Text × Text)) → Adds (Filters.permit_lan wfp cidrs) (lan_rules cidrs)
  permit_lan-Adds [] = skip-Adds
  permit_lan-Adds ((name, cidr) ∷ rest) =
      then-Adds (push wfp (Filters.add_permit_ip wfp name cidr)) (Filters.permit_lan wfp rest)
        (permit_rule name cidr) (lan_rules rest) (add_permit_ip-Adds name cidr)
        (permit_lan-Adds rest)

  abbrev pub dns_rules : ℕ → List SocketAddr → List (Rule wfp)
  dns_rules i [] = []
  dns_rules i (dns ∷ rest) =
      Filters.dns_rule wfp (bytes "ALLOW_DNS_" ++ decimal i) dns ∷ dns_rules (suc i) rest

  permit_dns-Adds :
      (i : ℕ) (servers : List SocketAddr)
      → Adds (Filters.permit_dns wfp i servers) (dns_rules i servers)
  unfolding Filters.add_permit_dns
  permit_dns-Adds i [] = skip-Adds
  permit_dns-Adds i (dns ∷ rest) =
      let rule : Rule wfp = Filters.dns_rule wfp (bytes "ALLOW_DNS_" ++ decimal i) dns in
      then-Adds (push wfp (Filters.add_filter wfp network_lock_error rule))
        (Filters.permit_dns wfp (suc i) rest) (rule ∷ []) (dns_rules (suc i) rest)
        (push-Adds network_lock_error rule) (permit_dns-Adds (suc i) rest)

  abbrev pub transport_rules : ℕ → List TransportPermitRule → List (Rule wfp)
  transport_rules i [] = []
  transport_rules i (permit ∷ rest) =
      Filters.transport_rule wfp (bytes "TRANSPORT_" ++ decimal i) permit
      ∷ transport_rules (suc i) rest

  permit_transports-Adds :
      (i : ℕ) (permits : List TransportPermitRule)
      → Adds (Filters.permit_transports wfp i permits) (transport_rules i permits)
  unfolding Filters.add_transport_permit
  permit_transports-Adds i [] = skip-Adds
  permit_transports-Adds i (permit ∷ rest) =
      let rule : Rule wfp = Filters.transport_rule wfp (bytes "TRANSPORT_" ++ decimal i) permit in
      then-Adds (push wfp (Filters.add_filter wfp network_lock_error rule))
        (Filters.permit_transports wfp (suc i) rest) (rule ∷ []) (transport_rules (suc i) rest)
        (push-Adds network_lock_error rule) (permit_transports-Adds (suc i) rest)

  abbrev pub lan_rules_if : Bool → List (Rule wfp)
  lan_rules_if true = lan_rules lan_cidrs
  lan_rules_if false = []

  abbrev pub endpoint_rules : Option SocketAddr → List (Rule wfp)
  endpoint_rules none = []
  endpoint_rules (some ep) = Filters.endpoint_rule wfp ep ∷ []

  -- The filters of a network lock, in the order of their coming in: everything is blocked, then the
  -- loopback networks are let through, and what the policy names.
  unfoldable pub lock_rules : NetworkLockPolicy → List (Rule wfp)
  lock_rules policy =
      ((((((plain_block (prefixed (bytes "KS_BLOCK")) ∷ [])
                ++ permit_rule (bytes "ALLOW_LOOPBACK_V4") (bytes "127.0.0.0/8"))
              ++ permit_rule (bytes "ALLOW_LOOPBACK_V6") (bytes "::1/128"))
            ++ lan_rules_if policy.allow_lan)
          ++ dns_rules 0 policy.dns_servers)
        ++ endpoint_rules policy.endpoint)
      ++ transport_rules 0 policy.transport_permits

  permit_lan_if-Adds : (b : Bool) → Adds (Filters.permit_lan_if wfp b) (lan_rules_if b)
  permit_lan_if-Adds true = permit_lan-Adds lan_cidrs
  permit_lan_if-Adds false = skip-Adds

  permit_endpoint-Adds :
      (ep : Option SocketAddr) → Adds (Filters.permit_endpoint wfp ep) (endpoint_rules ep)
  unfolding Filters.add_permit_endpoint
  permit_endpoint-Adds none = skip-Adds
  permit_endpoint-Adds (some ep) = push-Adds network_lock_error (Filters.endpoint_rule wfp ep)

  pub lock_part-Adds :
      (policy : NetworkLockPolicy) → Adds (Filters.lock_part wfp policy) (lock_rules policy)
  unfolding lock_rules
  lock_part-Adds policy =
      then-Adds _ _ _ _
        (then-Adds _ _ _ _
          (then-Adds _ _ _ _
            (then-Adds _ _ _ _
              (then-Adds _ _ _ _
                (then-Adds _ _ _ _
                  (push-Adds network_lock_error (plain_block (prefixed (bytes "KS_BLOCK"))))
                  (add_permit_ip-Adds (bytes "ALLOW_LOOPBACK_V4") (bytes "127.0.0.0/8")))
                (add_permit_ip-Adds (bytes "ALLOW_LOOPBACK_V6") (bytes "::1/128")))
              (permit_lan_if-Adds policy.allow_lan))
            (permit_dns-Adds 0 policy.dns_servers))
          (permit_endpoint-Adds policy.endpoint))
        (permit_transports-Adds 0 policy.transport_permits)
