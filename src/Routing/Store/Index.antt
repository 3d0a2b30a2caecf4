-- ===== src/Routing/Store/Index.antt =====
-- The two indexes of the store as Boolean tables, and what each step does to them.
use route_guard.Prelude.{
  ◌≡◌, refl, Bool, true, false, ◌&&◌, ◌||◌, Option, none, some, List, [], ◌∷◌, ◌++◌, arith,
  if◌then◌else◌, list_eq, nat_eq, contains, Option-cases, inl, inr, is_empty, list_beq,
  list_beq_iff,
}
use route_guard.Prelude.Text.{Text}
use route_guard.Prelude.Dict
use route_guard.Prelude.Dict.{Dict, lookup-insert, lookup-remove}
use route_guard.Core.Net.{IpAddr, ip_eq, ip_beq, ip_beq_iff}
use route_guard.Routing.Store.{ResolvedIpEntry, set_insert, set_remove, or_default, unlink, link}

abbrev pub in_set : Option (List IpAddr) → IpAddr → Bool
in_set none ip = false
in_set (some s) ip = contains s ip

-- The domain's set holds the address.
abbrev pub linked : Dict Text (List IpAddr) → Text → IpAddr → Bool
linked m d ip = in_set (Dict.lookup d m) ip

abbrev pub of_domain : Option ResolvedIpEntry → Text → Bool
of_domain none d = false
of_domain (some e) d = list_beq e.domain d

-- The address has an entry of the domain.
abbrev pub stored : Dict IpAddr ResolvedIpEntry → Text → IpAddr → Bool
stored m d ip = of_domain (Dict.lookup ip m) d

contains-append :
    (s : List IpAddr) (ip j : IpAddr) → contains (s ++ ip ∷ []) j ≡ (contains s j || ip_beq ip j)
contains-append [] ip j = ground arith
contains-append (i ∷ s) ip j = ground (arith, contains-append s ip j)

pub contains-set_insert :
    (ip j : IpAddr) (s : List IpAddr)
    → contains (set_insert ip s) j ≡ (if ip_beq ip j then true else contains s j)
contains-set_insert ip j s = ground (arith, contains-append s ip j, ip_beq_iff ip j)

pub contains-set_remove :
    (ip j : IpAddr) (s : List IpAddr)
    → contains (set_remove ip s) j ≡ (if ip_beq ip j then false else contains s j)
contains-set_remove ip j [] = ground arith
contains-set_remove ip j (i ∷ s) =
    ground (arith, contains-set_remove ip j s, ip_beq_iff i ip, ip_beq_iff i j, ip_beq_iff ip j)

contains-is_empty : (s : List IpAddr) (j : IpAddr) → is_empty s ≡ true → contains s j ≡ false
contains-is_empty [] j h = refl
contains-is_empty (i ∷ s) j h = cc

-- Unlinking clears one place of the table.
pub linked-unlink :
    (ip : IpAddr) (d : Text) (m : Dict Text (List IpAddr)) (d' : Text) (j : IpAddr)
    → linked (unlink ip d m) d' j ≡ (if list_beq d d' && ip_beq ip j then false else linked m d' j)
unfolding unlink
linked-unlink ip d m d' j = elim (Option-cases (Dict.lookup d m)) [
  | inl gone ↦ ground (arith, gone, list_beq_iff d d')
  | inr (s, there) ↦ ground (
    arith,
    there,
    list_beq_iff d d',
    lookup-remove d d' m,
    lookup-insert d d' (set_remove ip s) m,
    contains-set_remove ip j s,
    contains-is_empty (set_remove ip s) j,
  )
]

-- Linking sets one place of the table.
pub linked-link :
    (ip : IpAddr) (d : Text) (m : Dict Text (List IpAddr)) (d' : Text) (j : IpAddr)
    → linked (link ip d m) d' j ≡ (if list_beq d d' && ip_beq ip j then true else linked m d' j)
unfolding link
linked-link ip d m d' j = ground (
  arith,
  list_beq_iff d d',
  lookup-insert d d' (set_insert ip (or_default (Dict.lookup d m))) m,
  contains-set_insert ip j (or_default (Dict.lookup d m)),
)
