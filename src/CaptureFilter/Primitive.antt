-- ===== src/CaptureFilter/Primitive.antt =====
-- capture_filter.py: `_Parser.primitive`, `ether`, `length` and `named`: one condition each.
use homelab_agent.Prelude.{
  ℕ, zero, suc, Bool, true, false, ◌&&◌, ◌||◌, Option, none, some, List, [], ◌∷◌, contains, all,
  length, ◌==◌, nat_eq, list_eq, leb, ltb, eqb, if◌then◌else◌,
}
use homelab_agent.Prelude.Text.{Text, text, lower, is_decimal, int, partition, is_digit}
use homelab_agent.CaptureFilter.Tokens.{
  not_an_address, not_a_port, not_a_network, needs_range, backwards, not_a_mac, bad_comparison,
  not_a_number, not_a_host_name, unsupported, unknown, cant_qualify, no_ports,
}
use homelab_agent.CaptureFilter.Packet.{
  IpLibrary, Packet, Predicate, Direction, direction_of, side, holds, protocols, protocol,
  conjunction, in_network, named_predicate,
}
use homelab_agent.CaptureFilter.Parser.{
  Parser, ◌>>=◌, ◌>>◌, pure, raise, or_raise, if_next, choose, take_token, expect,
}

-- ISSUES
unfoldable pub issue_of : Text → Option Text
issue_of word =
    if word == text "retransmit"
    then some (text "retransmit")
    else if word == text "reset"
    then some (text "reset")
    else if word == text "zerowindow"
    then some (text "zero-window")
    else if word == text "dupack"
    then some (text "dup-ack")
    else if word == text "gap"
    then some (text "gap")
    else none

abbrev pub unsupported_words : List Text
unsupported_words =
    text "vlan" ∷ text "proto" ∷ text "gateway" ∷ text "broadcast" ∷ text "multicast" ∷ []

abbrev pub selectors : List Text
selectors = text "src" ∷ text "dst" ∷ text "host" ∷ text "net" ∷ text "port" ∷ text "portrange" ∷ []

-- `_port`
unfoldable pub port : Text → Parser ℕ
port value =
    if is_decimal value && ltb 0 (int value) && leb (int value) 65535
    then pure (int value)
    else raise (not_a_port value)

unfoldable pub is_hex : ℕ → Bool
unfolding is_digit
is_hex c = is_digit c || leb 97 c && leb c 102

mac_tail : ℕ → Text → Bool
mac_tail zero [] = true
mac_tail (suc n) (c ∷ a ∷ b ∷ s) = eqb c 58 && is_hex a && is_hex b && mac_tail n s
mac_tail _ _ = false

-- `_MAC`, on a lower-case text
unfoldable pub is_mac : Text → Bool
unfolding is_hex mac_tail
is_mac (a ∷ b ∷ s) = is_hex a && is_hex b && mac_tail 5 s
is_mac _ = false

-- `if self.peek() in DIRECTIONS: direction = self.take().lower()`
unfoldable pub optional_direction : Parser (Option Direction)
optional_direction =
    if_next (text "src" ∷ text "dst" ∷ []) (do d ← take_token; pure (direction_of (lower d)))
      (pure none)

unfoldable pub ether : Parser Predicate
ether = do
  direction ← optional_direction
  expect (text "host")
  spelled ← take_token
  let mac = lower spelled
  if is_mac mac
      then pure (side direction (λ p. p.src_mac) (λ p. p.dst_mac) (λ v. v == mac))
      else raise (not_a_mac mac)

-- the operator as a test of a length against `n`
unfoldable pub comparison : Text → Option (ℕ → ℕ → Bool)
comparison op =
    if op == text "<"
    then some (λ n v. ltb v n)
    else if op == text "<="
    then some (λ n v. leb v n)
    else if op == text ">"
    then some (λ n v. ltb n v)
    else if op == text ">="
    then some (λ n v. leb n v)
    else if op == text "=" || op == text "=="
    then some (λ n v. eqb v n)
    else none

-- `{"less": "<=", "greater": ">="}.get(word)`, or the next token
unfoldable pub comparison_after : Text → Parser (ℕ → ℕ → Bool)
comparison_after word =
    if word == text "less"
    then pure (λ n v. leb v n)
    else if word == text "greater"
    then pure (λ n v. leb n v)
    else do op ← take_token; or_raise (comparison op) (bad_comparison op)

-- `p.get("len", 0)`
abbrev size_of : Packet → ℕ
size_of p = elim p.size [ none ↦ 0 | some n ↦ n ]

unfoldable pub length_condition : Text → Parser Predicate
length_condition word = do
  compare ← comparison_after word
  number ← take_token
  if is_decimal number
      then pure (λ p. compare (int number) (size_of p))
      else raise (not_a_number number)

-- `[a-z0-9*._-]{1,253}`
is_pattern_char : ℕ → Bool
unfolding is_digit
is_pattern_char c =
    leb 97 c && leb c 122 || is_digit c || eqb c 42 || eqb c 46 || eqb c 95 || eqb c 45

unfoldable pub is_pattern : Text → Bool
unfolding is_pattern_char all
is_pattern s = leb 1 (length s) && leb (length s) 253 && all is_pattern_char s

unfoldable pub named : Text → Parser Predicate
named word = do
  spelled ← take_token
  let pattern = lower spelled
  if is_pattern pattern
      then pure (named_predicate (word == text "sni") pattern)
      else raise (not_a_host_name pattern)

unfoldable pub port_range : Text → Parser (ℕ × ℕ)
port_range spec =
    let (low_text, rest) = partition 45 spec in
    choose rest (raise needs_range) λ high_text. do
      low ← port low_text
      high ← port high_text
      if leb low high then pure (low, high) else raise (backwards spec)

unfoldable pub has_ports : Predicate
has_ports p = holds (λ v. v == text "TCP" || v == text "UDP") p.proto

abbrev maybe_protocol : Option Text → Option Predicate
maybe_protocol none = none
maybe_protocol (some q) = some (protocol q)

-- the last part of `primitive` for ports, the range already read
unfoldable pub port_condition : Option Text → Option Direction → ℕ × ℕ → Predicate
port_condition qualifier direction range = conjunction (
    maybe_protocol qualifier
    ∷ some has_ports
    ∷ some (side direction (λ p. p.sport) (λ p. p.dport) (λ v. leb range.0 v && leb v range.1))
    ∷ [])

abbrev portless : Option Text → Option Text
portless none = none
portless (some q) =
    if contains (text "icmp" ∷ text "icmp6" ∷ text "arp" ∷ []) q then some q else none

unfoldable pub range_of : Text → Text → Parser (ℕ × ℕ)
range_of word spec =
    if word == text "port" then (do n ← port spec; pure (n, n)) else port_range spec

-- `if qualifier: raise …`
unfoldable pub unqualified : Option Text → Text → Parser Predicate → Parser Predicate
unqualified qualifier word m = choose qualifier m (λ q. raise (cant_qualify q word))

-- `bool(p.get("issues"))`
abbrev has_issue : List Text → Bool
has_issue [] = false
has_issue (_ ∷ _) = true

module _ ⦃lib : IpLibrary⦄ where
  open lib use {ip_address, show, ip_network}

  abbrev canonical : Text → Option Text
  canonical value = elim (ip_address value) [ none ↦ none | some a ↦ some (show a) ]

  -- `primitive` from `if word == "host"` on
  unfoldable pub selector : Text → Option Text → Option Direction → Text → Parser Predicate
  selector first qualifier direction word =
      if word == text "host"
      then (do
        value ← take_token
        ip ← or_raise (canonical value) (not_an_address value)
        pure (
            conjunction (
              maybe_protocol qualifier
              ∷ some (side direction (λ p. p.src) (λ p. p.dst) (λ v. v == ip))
              ∷ [])))
      else if word == text "net"
      then (do
        spec ← take_token
        net ← or_raise (ip_network spec) (not_a_network spec)
        pure (
            conjunction (
              maybe_protocol qualifier
              ∷ some (side direction (λ p. p.src) (λ p. p.dst) (in_network net))
              ∷ [])))
      else if word == text "port" || word == text "portrange"
      then choose (portless qualifier)
          (do
            spec ← take_token
            range ← range_of word spec
            pure (port_condition qualifier direction range))
          (λ q. raise (no_ports q))
      else raise (unknown first)

  -- `primitive` from `if word in DIRECTIONS` on
  unfoldable pub directed : Text → Option Text → Text → Parser Predicate
  directed first qualifier word =
      choose (direction_of word) (selector first qualifier none word)
        λ d. do next ← take_token; selector first qualifier (some d) (lower next)

  -- `primitive` from `if word == "ether"` on
  unfoldable pub condition : Text → Option Text → Text → Parser Predicate
  condition first qualifier word =
      if word == text "ether"
      then ether
      else if contains (text "len" ∷ text "less" ∷ text "greater" ∷ []) word
      then unqualified qualifier word (length_condition word)
      else if contains (text "sni" ∷ text "name" ∷ []) word
      then unqualified qualifier word (named word)
      else directed first qualifier word

  -- `primitive` from `qualifier = None` on
  unfoldable pub qualified : Text → Text → Parser Predicate
  qualified first word =
      if contains protocols word
      then if_next selectors (do next ← take_token; condition first (some word) (lower next))
          (pure (protocol word))
      else condition first none word

  unfoldable pub primitive : Parser Predicate
  primitive = do
    first ← take_token
    let word = lower first
    if contains unsupported_words word || contains word b'['
        then raise (unsupported first)
        else choose (issue_of word)
            (if word == text "problem"
              then pure (λ p. has_issue p.issues)
              else qualified first word)
            (λ wanted. pure (λ p. contains p.issues wanted))
