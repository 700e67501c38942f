-- ===== src/Netwatch/Address.antt =====
-- netwatch.py: `_interesting_ip`, `_interesting_mac` and the virtual MAC prefixes.
-- Python's `ipaddress.ip_address` is a parameter, `read_ip`, that gives the attributes in use.
use homelab_agent.Prelude.{
  ℕ, zero, suc, Bool, true, false, not, ◌&&◌, ◌||◌, Option, none, some, [], ◌∷◌, any, ◌==◌, nat_eq,
  list_eq, eqb, leb,
}
use homelab_agent.Prelude.Text.{Text, text, starts_with, is_digit}

pub record IpAttributes : Type 0 where
  pub version : ℕ
  pub is_private : Bool
  pub is_unspecified : Bool
  pub is_link_local : Bool
  pub is_multicast : Bool
  pub is_loopback : Bool

unfoldable pub interesting : IpAttributes → Bool
interesting ip =
    eqb ip.version 4
    && ip.is_private
    && not (ip.is_unspecified || ip.is_link_local || ip.is_multicast || ip.is_loopback)

unfoldable pub interesting_ip : (Text → Option IpAttributes) → Text → Bool
unfolding interesting
interesting_ip read_ip value = elim (read_ip value) [ none ↦ false | some ip ↦ interesting ip ]

is_hex : ℕ → Bool
unfolding is_digit
is_hex c = is_digit c || leb 97 c && leb c 102

-- `(:[0-9a-f]{2}){n}$`, where `$` allows one newline at the end
mac_rest : ℕ → Text → Bool
mac_rest zero [] = true
mac_rest zero (c ∷ []) = eqb c 10
mac_rest zero (c ∷ d ∷ s) = false
mac_rest (suc n) (c ∷ a ∷ b ∷ s) = eqb c 58 && is_hex a && is_hex b && mac_rest n s
mac_rest (suc n) _ = false

-- `_MAC.match`
unfoldable pub is_mac : Text → Bool
unfolding is_hex mac_rest
is_mac (a ∷ b ∷ s) = is_hex a && is_hex b && mac_rest 5 s
is_mac _ = false

unfoldable pub interesting_mac : Text → Bool
interesting_mac value =
    is_mac value && not (value == text "00:00:00:00:00:00" || value == text "ff:ff:ff:ff:ff:ff")

-- VIRTUAL_MAC_PREFIXES
unfoldable pub is_virtual : Text → Bool
is_virtual mac = any (starts_with mac) (
    text "00:00:5e:00:01"
    ∷ text "00:00:5e:00:02"
    ∷ text "00:00:0c:07:ac"
    ∷ text "00:00:0c:9f:f"
    ∷ [])
