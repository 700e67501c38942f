-- ===== src/Sockets/Table.antt =====
-- sockets.py: `build_index` and `match`. A row without a local port is never in the table.
use homelab_agent.Prelude.{
  ℕ, ◌≡◌, ◌↔◌, Bool, true, ◌&&◌, Option, none, some, List, [], ◌∷◌, arith, HasEq, ◌==◌, nat_eq,
  list_eq, option_eq, list_beq_iff, option_beq_iff, eqb, eqb_iff, is_some, if◌then◌else◌,
}
use homelab_agent.Prelude.Text.{Text}
use homelab_agent.Prelude.Dict.{Dict, get, set}
use homelab_agent.Connections.Flow.{Flow, PortKey, port_key_eq}

pub record Socket : Type 0 where
  pub proto : Text
  pub local_port : ℕ
  pub remote_ip : Option Text
  pub remote_port : Option ℕ
  pub inode : ℕ

-- `(proto, local_port, remote_ip, remote_port)`
pub record ExactKey : Type 0 where
  pub proto : Text
  pub local_port : ℕ
  pub remote_ip : Option Text
  pub remote_port : Option ℕ

abbrev exact_key_same : ExactKey → ExactKey → Bool
exact_key_same a b =
    a.proto == b.proto
    && eqb a.local_port b.local_port
    && a.remote_ip == b.remote_ip
    && a.remote_port == b.remote_port

pub exact_key_same_iff : (a b : ExactKey) → (exact_key_same a b ≡ true) ↔ (a ≡ b)
exact_key_same_iff a b = ground (
  arith,
  list_beq_iff a.proto b.proto,
  eqb_iff a.local_port b.local_port,
  option_beq_iff a.remote_ip b.remote_ip,
  option_beq_iff a.remote_port b.remote_port,
)

instance abbrev pub exact_key_eq : HasEq ExactKey
exact_key_eq = record { same = exact_key_same; same_iff = exact_key_same_iff }

pub record SocketIndex : Type 0 where
  pub exact : Dict ExactKey ℕ
  pub by_port : Dict PortKey ℕ

-- d.setdefault(k, v)
abbrev pub set_default {ℓ} : {K : Type ℓ} ⦃e : HasEq K⦄ → Dict K ℕ → K → ℕ → Dict K ℕ
set_default d k v = if is_some (get d k) then d else set d k v

abbrev pub exact_key_of : Socket → ExactKey
exact_key_of s = record {
  proto = s.proto;
  local_port = s.local_port;
  remote_ip = s.remote_ip;
  remote_port = s.remote_port;
}

abbrev pub port_key_of : Socket → PortKey
port_key_of s = record { port = s.local_port; proto = s.proto }

unfoldable pub index_sockets : List Socket → SocketIndex → SocketIndex
index_sockets [] index = index
index_sockets (s ∷ ss) index = index_sockets ss (record {
  exact = set_default index.exact (exact_key_of s) s.inode;
  by_port = set_default index.by_port (port_key_of s) s.inode;
})

unfoldable pub build_index : List Socket → SocketIndex
unfolding index_sockets
build_index sockets = index_sockets sockets (record { exact = []; by_port = [] })

-- one candidate's look-up by its four, and by its port; without a port it is passed over
abbrev pub look_exact : SocketIndex → Text → Option ℕ → Text → Option ℕ → Option ℕ
look_exact index proto none ip port = none
look_exact index proto (some local) ip port =
    get index.exact
      (record { proto = proto; local_port = local; remote_ip = some ip; remote_port = port })

abbrev pub look_port : SocketIndex → Text → Option ℕ → Option ℕ
look_port index proto none = none
look_port index proto (some local) = get index.by_port (record { port = local; proto = proto })

infixr 4 ◌or_else◌
abbrev pub ◌or_else◌ : Option ℕ → Option ℕ → Option ℕ
◌or_else◌ none b = b
◌or_else◌ (some a) b = some a

unfoldable pub match_socket : Flow → SocketIndex → Option ℕ
match_socket flow index =
    look_exact index flow.proto flow.orig.sport flow.orig.dst flow.orig.dport
    or_else look_exact index flow.proto flow.orig.dport flow.orig.src flow.orig.sport
    or_else look_port index flow.proto flow.orig.sport
    or_else look_port index flow.proto flow.orig.dport
