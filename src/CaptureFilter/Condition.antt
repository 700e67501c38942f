-- ===== src/CaptureFilter/Condition.antt =====
-- capture_filter.py, `primitive`: the conditions on ports are read as the doc comment
-- lists them, `[tcp|udp] [src|dst] port N`.
use homelab_agent.Prelude.{
  ℕ, Bool, ◌&&◌, ◌||◌, ◌==◌, all, leb, option_eq, ◌<◌, ◌≤◌, ◌≡◌, refl, true, false, Option, none,
  some, List, [], ◌∷◌, ◌++◌, arith, contains, list_beq, nat_eq, list_eq,
}
use homelab_agent.Prelude.Text.{Text, text, lower, is_decimal, int}
use homelab_agent.Prelude.Result.{ok}
use homelab_agent.CaptureFilter.Packet.{
  IpLibrary, Packet, Predicate, Direction, src, dst, direction_of, holds, side, conjunction,
  protocol, upper,
}
use homelab_agent.CaptureFilter.Parser.{
  bind-ok, ◌>>=◌, pure, raise, or_raise, if_next, choose, take_token, next_in, peek,
}
use homelab_agent.CaptureFilter.Primitive.{
  primitive, qualified, condition, directed, selector, port, port_condition, range_of, issue_of,
  has_ports,
}
use homelab_agent.CaptureFilter.Grammar.{not_words}
use homelab_agent.CaptureFilter.Syntax.{IsCondition}

abbrev direction_word : Option Direction → List Text
direction_word none = []
direction_word (some src) = text "src" ∷ []
direction_word (some dst) = text "dst" ∷ []

-- the protocols that have ports
pub data Carrier : Type 0 where
  any_carrier tcp udp : Carrier

abbrev carrier_word : Carrier → List Text
carrier_word any_carrier = []
carrier_word tcp = text "tcp" ∷ []
carrier_word udp = text "udp" ∷ []

abbrev pub carrier_name : Carrier → Option Text
carrier_name any_carrier = none
carrier_name tcp = some (text "tcp")
carrier_name udp = some (text "udp")

-- `[tcp|udp] [src|dst] port N`
abbrev pub port_words : Carrier → Option Direction → Text → List Text
port_words c d value = carrier_word c ++ (direction_word d ++ text "port" ∷ value ∷ [])

reading : Unit {0}
unfolding primitive qualified condition directed selector range_of ◌>>=◌ pure raise or_raise if_next
    choose take_token next_in peek lower contains list_beq issue_of direction_of
reading = tt

port_lem :
    (value : Text) (rest : List Text)
    → is_decimal value ≡ true
    → 0 < int value
    → int value ≤ 65535
    → port value rest ≡ ok (int value, rest)
unfolding port pure raise
port_lem value rest d lo hi = ground arith

range_of-port :
    (value : Text) (rest : List Text)
    → is_decimal value ≡ true
    → 0 < int value
    → int value ≤ 65535
    → range_of (text "port") value rest ≡ ok ((int value, int value), rest)
unfolding reading
range_of-port value rest d lo hi =
    bind-ok (port value) _ rest rest (int value) (port_lem value rest d lo hi)

module _ ⦃lib : IpLibrary⦄ (value : Text) (h : is_decimal value ≡ true) (lo : 0 < int value)
    (hi : int value ≤ 65535) where
  selector-port :
      (first : Text) (c : Carrier) (d : Option Direction) (rest : List Text)
      → selector first (carrier_name c) d (text "port") (value ∷ rest)
        ≡ ok (port_condition (carrier_name c) d (int value, int value), rest)
  unfolding reading
  selector-port first any_carrier d rest =
      bind-ok (range_of (text "port") value) _ rest rest _ (range_of-port value rest h lo hi)
  selector-port first _ d rest =
      bind-ok (range_of (text "port") value) _ rest rest _ (range_of-port value rest h lo hi)

  primitive-port :
      (c : Carrier) (d : Option Direction) (rest : List Text)
      → primitive (port_words c d value ++ rest)
        ≡ ok (port_condition (carrier_name c) d (int value, int value), rest)
  unfolding reading
  primitive-port any_carrier none rest = selector-port [] any_carrier none rest
  primitive-port any_carrier (some src) rest = selector-port [] any_carrier (some src) rest
  primitive-port any_carrier (some dst) rest = selector-port [] any_carrier (some dst) rest
  primitive-port tcp none rest = selector-port [] tcp none rest
  primitive-port tcp (some src) rest = selector-port [] tcp (some src) rest
  primitive-port tcp (some dst) rest = selector-port [] tcp (some dst) rest
  primitive-port udp none rest = selector-port [] udp none rest
  primitive-port udp (some src) rest = selector-port [] udp (some src) rest
  primitive-port udp (some dst) rest = selector-port [] udp (some dst) rest

port-no_operator :
    (c : Carrier) (d : Option Direction) (value : Text) (rest : List Text)
    → (next_in not_words (port_words c d value ++ rest) ≡ false)
      × (next_in (text "(" ∷ []) (port_words c d value ++ rest) ≡ false)
unfolding reading
port-no_operator any_carrier none value rest = (refl, refl)
port-no_operator any_carrier (some src) value rest = (refl, refl)
port-no_operator _ _ value rest = (refl, refl)

module _ ⦃lib : IpLibrary⦄ where
  -- A port from 1 to 65535, with or without a protocol and a direction, is one condition.
  pub port-IsCondition :
      (c : Carrier) (d : Option Direction) (value : Text)
      → is_decimal value ≡ true
      → 0 < int value
      → int value ≤ 65535
      → IsCondition
          (port_words c d value)
          (port_condition (carrier_name c) d (int value, int value))
  port-IsCondition c d value h lo hi = record {
    read_back = λ rest e. primitive-port value h lo hi c d rest;
    no_operator = port-no_operator c d value;
  }

-- the packet is one of the protocol's, or of either if none is named
abbrev pub is_carried : Carrier → Packet → Bool
is_carried any_carrier p = p.proto == some (text "TCP") || p.proto == some (text "UDP")
is_carried tcp p = p.proto == some (text "TCP")
is_carried udp p = p.proto == some (text "UDP")

-- its source's port is this one, its destination's, or either
abbrev pub has_port : Option Direction → ℕ → Packet → Bool
has_port (some src) n p = p.sport == some n
has_port (some dst) n p = p.dport == some n
has_port none n p = p.sport == some n || p.dport == some n

holds-within : (n : ℕ) (o : Option ℕ) → holds (λ v. leb n v && leb v n) o ≡ (o == some n)
holds-within n none = refl
holds-within n (some v) = ground arith

side-has_port :
    (d : Option Direction) (n : ℕ) (p : Packet)
    → side d (λ p. p.sport) (λ p. p.dport) (λ v. leb n v && leb v n) p ≡ has_port d n p
unfolding side
side-has_port (some src) n p = holds-within n p.sport
side-has_port (some dst) n p = holds-within n p.dport
side-has_port none n p = rw (holds-within n p.sport, holds-within n p.dport) refl

holds-proto : (o : Option Text) (t : Text) → holds (λ v. v == t) o ≡ (o == some t)
holds-proto none t = refl
holds-proto (some v) t = refl

has_ports_lem :
    (o : Option Text)
    → holds (λ v. v == text "TCP" || v == text "UDP") o
      ≡ (o == some (text "TCP") || o == some (text "UDP"))
has_ports_lem none = refl
has_ports_lem (some v) = refl

port_condition_lem :
    (c : Carrier) (d : Option Direction) (n : ℕ) (p : Packet)
    → port_condition (carrier_name c) d (n, n) p ≡ (is_carried c p && has_port d n p)
unfolding port_condition conjunction has_ports protocol upper all contains list_beq
port_condition_lem any_carrier d n p =
    rw (has_ports_lem p.proto, side-has_port d n p) (ground arith)
port_condition_lem tcp d n p =
    rw (has_ports_lem p.proto, side-has_port d n p, holds-proto p.proto (text "TCP")) (ground arith)
port_condition_lem udp d n p =
    rw (has_ports_lem p.proto, side-has_port d n p, holds-proto p.proto (text "UDP")) (ground arith)

module _ ⦃lib : IpLibrary⦄ where
  -- A port from 1 to 65535, with or without a protocol and a direction, is read as one condition. It
  -- holds of the packets of that protocol, of TCP or UDP if none is named, that have the port as their
  -- source's, as their destination's, or, if no direction is named, as either.
  pub port-has_port :
      (c : Carrier) (d : Option Direction) (value : Text)
      → is_decimal value ≡ true
      → 0 < int value
      → int value ≤ 65535
      → (f : Predicate) × IsCondition (port_words c d value) f
        × ((p : Packet) → f p ≡ (is_carried c p && has_port d (int value) p))
  port-has_port c d value h lo hi = (
    port_condition (carrier_name c) d (int value, int value),
    port-IsCondition c d value h lo hi,
    port_condition_lem c d (int value),
  )
