-- ===== src/Connections/Flow.antt =====
-- connections.py: a flow, the index of containers, and which container a flow belongs to. Counters
-- and ports are the kernel's, so they are no less than 0.
use homelab_agent.Prelude.{
  ℕ, ◌≡◌, ◌↔◌, Bool, true, ◌&&◌, Option, none, some, List, [], ◌∷◌, arith, HasEq, ◌==◌, nat_eq,
  list_eq, list_beq_iff, eqb, eqb_iff,
}
use homelab_agent.Prelude.Text.{Text}
use homelab_agent.Prelude.Dict.{Dict, get, set}

-- the direction that the connection was opened in
pub record Orig : Type 0 where
  pub src : Text
  pub dst : Text
  pub sport : Option ℕ
  pub dport : Option ℕ
  pub bytes : Option ℕ
  pub packets : Option ℕ

-- the way back
pub record Back : Type 0 where
  pub src : Option Text
  pub dst : Option Text
  pub sport : Option ℕ
  pub dport : Option ℕ
  pub bytes : Option ℕ
  pub packets : Option ℕ

pub record Flow : Type 0 where
  pub family : Text
  pub proto : Text
  pub state : Option Text
  pub unreplied : Bool
  pub orig : Orig
  pub reply : Back

pub record Entry : Type 0 where
  pub container : Text
  pub container_id : Text

-- a published port, `(port, proto)`
pub record PortKey : Type 0 where
  pub port : ℕ
  pub proto : Text

abbrev port_key_same : PortKey → PortKey → Bool
port_key_same a b = eqb a.port b.port && a.proto == b.proto

pub port_key_same_iff : (a b : PortKey) → (port_key_same a b ≡ true) ↔ (a ≡ b)
port_key_same_iff a b = ground (arith, eqb_iff a.port b.port, list_beq_iff a.proto b.proto)

instance abbrev pub port_key_eq : HasEq PortKey
port_key_eq = record { same = port_key_same; same_iff = port_key_same_iff }

pub record Index : Type 0 where
  pub by_ip : Dict Text Entry
  pub by_port : Dict PortKey Entry

-- a container as `container_map` gives it
pub record Container : Type 0 where
  pub id : Text
  pub name : Text
  pub ips : List Text
  pub ports : List PortKey

unfoldable pub set_all {ℓ} :
    {K : Type ℓ} ⦃e : HasEq K⦄ → List K → Entry → Dict K Entry → Dict K Entry
set_all [] entry d = d
set_all (k ∷ ks) entry d = set_all ks entry (set d k entry)

unfoldable pub index_from : List Container → Index → Index
index_from [] index = index
index_from (c ∷ cs) index =
    let entry : Entry = record { container = c.name; container_id = c.id } in
    index_from cs (record {
      by_ip = set_all c.ips entry index.by_ip;
      by_port = set_all c.ports entry index.by_port;
    })

unfoldable pub build_index : List Container → Index
build_index containers = index_from containers (record { by_ip = []; by_port = [] })

pub data Direction : Type 0 where
  incoming outgoing : Direction

pub record Attribution : Type 0 where
  pub container : Option Text
  pub container_id : Option Text
  pub peer_container : Option Text
  pub direction : Option Direction
  pub peer : Option Text
  pub peer_port : Option ℕ
  pub rx_bytes : Option ℕ
  pub tx_bytes : Option ℕ

abbrev pub empty_attribution : Attribution
empty_attribution = record {
  container = none;
  container_id = none;
  peer_container = none;
  direction = none;
  peer = none;
  peer_port = none;
  rx_bytes = none;
  tx_bytes = none;
}

abbrev pub get_opt {ℓ} : {K : Type ℓ} ⦃e : HasEq K⦄ → Dict K Entry → Option K → Option Entry
get_opt d none = none
get_opt d (some k) = get d k

abbrev pub name_of : Option Entry → Option Text
name_of none = none
name_of (some e) = some e.container

-- the key `(orig["dport"], flow["proto"])`; no published port is missing
abbrev pub port_key : Flow → Option PortKey
port_key flow = elim flow.orig.dport [
  | none ↦ none
  | some port ↦ some (record { port = port; proto = flow.proto })
]

-- `a or b`
abbrev pub or_entry : Option Entry → Option Entry → Option Entry
or_entry none b = b
or_entry (some a) b = some a

abbrev pub going_out : Flow → Index → Entry → Attribution
going_out flow index local = record {
  container = some local.container;
  container_id = some local.container_id;
  peer_container = name_of (get index.by_ip flow.orig.dst);
  direction = some outgoing;
  peer = some flow.orig.dst;
  peer_port = flow.orig.dport;
  rx_bytes = flow.reply.bytes;
  tx_bytes = flow.orig.bytes;
}

abbrev pub coming_in : Flow → Index → Entry → Attribution
coming_in flow index local = record {
  container = some local.container;
  container_id = some local.container_id;
  peer_container = name_of (get index.by_ip flow.orig.src);
  direction = some incoming;
  peer = some flow.orig.src;
  peer_port = flow.orig.dport;
  rx_bytes = flow.orig.bytes;
  tx_bytes = flow.reply.bytes;
}

unfoldable pub attribute : Flow → Index → Attribution
attribute flow index = elim (get index.by_ip flow.orig.src) [
  | some local ↦ going_out flow index local
  | none ↦
      elim (or_entry (get_opt index.by_ip flow.reply.src) (get_opt index.by_port (port_key flow))) [
        | some local ↦ coming_in flow index local
        | none ↦ empty_attribution
      ]
]
