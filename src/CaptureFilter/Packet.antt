-- ===== src/CaptureFilter/Packet.antt =====
-- capture_filter.py: the fields of a decoded packet, and the predicates that the parser builds.
-- Python's `ipaddress` is a parameter, `IpLibrary`.
use homelab_agent.Prelude.{
  ℕ, ◌-◌, Bool, true, false, not, ◌&&◌, ◌||◌, Option, none, some, List, [], ◌∷◌, map, all, contains,
  ◌==◌, nat_eq, list_eq, leb, eqb, if◌then◌else◌,
}
use homelab_agent.Prelude.Text.{Text, text, lower}

-- ipaddress.ip_address, str of an address, ipaddress.ip_network(spec, strict=False), `in`
pub record IpLibrary : Type 1 where
  pub Address : Type 0
  pub Network : Type 0
  pub ip_address : Text → Option Address
  pub show : Address → Text
  pub ip_network : Text → Option Network
  pub inside : Address → Network → Bool

pub record Packet : Type 0 where
  pub ip : Option ℕ
  pub proto : Option Text
  pub app : Option Text
  pub src : Option Text
  pub dst : Option Text
  pub sport : Option ℕ
  pub dport : Option ℕ
  pub src_mac : Option Text
  pub dst_mac : Option Text
  pub size : Option ℕ
  pub issues : List Text
  pub sni : Option Text
  pub name : Option Text

abbrev pub Predicate : Type 0
Predicate = Packet → Bool

pub data Direction : Type 0 where
  src dst : Direction

-- DIRECTIONS
unfoldable pub direction_of : Text → Option Direction
direction_of word =
    if word == text "src" then some src else if word == text "dst" then some dst else none

-- `p.get(a) is not None and test(p[a])`
abbrev pub holds {ℓ} : {A : Type ℓ} → (A → Bool) → Option A → Bool
holds test none = false
holds test (some v) = test v

unfoldable pub side {ℓ} :
    {A : Type ℓ}
    → Option Direction
    → (Packet → Option A)
    → (Packet → Option A)
    → (A → Bool)
    → Predicate
side (some src) a b test p = holds test (a p)
side (some dst) a b test p = holds test (b p)
side none a b test p = holds test (a p) || holds test (b p)

abbrev pub app_protocols : List Text
app_protocols = text "dns" ∷ text "tls" ∷ text "http" ∷ text "dhcp" ∷ text "ntp" ∷ []

abbrev pub protocols : List Text
protocols =
    text "tcp"
    ∷ text "udp"
    ∷ text "icmp"
    ∷ text "icmp6"
    ∷ text "arp"
    ∷ text "ip"
    ∷ text "ip6"
    ∷ app_protocols

-- s.upper()
to_upper : ℕ → ℕ
to_upper c = if leb 97 c && leb c 122 then c - 32 else c

unfoldable pub upper : Text → Text
unfolding to_upper
upper = map to_upper

unfoldable pub protocol : Text → Predicate
protocol name p =
    if name == text "ip"
    then holds (λ v. eqb v 4) p.ip
    else if name == text "ip6"
    then holds (λ v. eqb v 6) p.ip
    else if name == text "icmp6"
    then holds (λ v. v == text "ICMPv6") p.proto
    else if contains app_protocols name
    then holds (λ v. v == name) p.app
    else holds (λ v. v == upper name) p.proto

abbrev active : Option Predicate → Packet → Bool
active none p = true
active (some f) p = f p

-- `_and`: the parts that are None drop out
unfoldable pub conjunction : List (Option Predicate) → Predicate
unfolding all
conjunction parts p = all (λ f. active f p) parts

module _ ⦃lib : IpLibrary⦄ where
  open lib use {Network, ip_address, inside}

  unfoldable pub in_network : Network → Text → Bool
  in_network net value = elim (ip_address value) [ none ↦ false | some a ↦ inside a net ]

-- fnmatch.fnmatchcase, for patterns whose only wildcard is `*`
unfoldable pub glob : Text → Text → Bool
glob [] [] = true
glob [] (c ∷ s) = false
glob (q ∷ ps) [] = elim (eqb q 42) [ true ↦ glob ps [] | false ↦ false ]
glob (q ∷ ps) (c ∷ s) = elim (eqb q 42) [
  | true ↦ elim (glob ps (c ∷ s)) [ true ↦ true | false ↦ glob (q ∷ ps) s ]
  | false ↦ elim (eqb q c) [ true ↦ glob ps s | false ↦ false ]
]

-- `pattern[2:] if pattern.startswith("*.") else None`
unfoldable pub bare_of : Text → Option Text
bare_of (a ∷ b ∷ s) = if eqb a 42 && eqb b 46 then some s else none
bare_of _ = none

-- one field of `named`
unfoldable pub name_matches : Text → Text → Bool
unfolding bare_of
name_matches pattern [] = false
name_matches pattern (c ∷ s) =
    let name = lower (c ∷ s) in glob pattern name || holds (λ bare. name == bare) (bare_of pattern)

unfoldable pub named_predicate : Bool → Text → Predicate
unfolding name_matches
named_predicate only_sni pattern p =
    holds (name_matches pattern) p.sni || not only_sni && holds (name_matches pattern) p.name
