-- ===== src/Connections/Lookup.antt =====
-- connections.py: the container that `build_index` finds for an address or a published port.
use homelab_agent.Prelude.{
  ◌≡◌, refl, ap, ◌∙◌, Option, none, some, List, [], ◌∷◌, arith, HasEq, ==_sym, contains,
  if◌then◌else◌, nat_eq, list_eq,
}
use homelab_agent.Prelude.Text.{Text}
use homelab_agent.Prelude.Dict.{Dict, get, set, get-set}
use homelab_agent.Connections.Flow.{
  Entry, PortKey, port_key_eq, Index, Container, set_all, index_from, build_index,
}

module _ {ℓ} {K : Type ℓ} ⦃e : HasEq K⦄ where
  get-set_all :
      (ks : List K) (entry : Entry) (d : Dict K Entry) (k : K)
      → get (set_all ks entry d) k ≡ (if contains ks k then some entry else get d k)
  unfolding set_all contains
  get-set_all [] entry d k = refl
  get-set_all (j ∷ ks) entry d k =
      get-set_all ks entry (set d j entry) k ∙ ground (arith, get-set d j k entry, ==_sym j k)

  -- the last container whose keys have the key
  abbrev pub last_with : (Container → List K) → List Container → K → Option Entry → Option Entry
  last_with keys [] k found = found
  last_with keys (c ∷ cs) k found = last_with keys cs k (
      if contains (keys c) k
      then some (record { container = c.name; container_id = c.id })
      else found)

get-index_from :
    (cs : List Container) (index : Index) (ip : Text) (port : PortKey)
    → (get (index_from cs index).by_ip ip ≡ last_with (λ c. c.ips) cs ip (get index.by_ip ip))
      × (get (index_from cs index).by_port port
          ≡ last_with (λ c. c.ports) cs port (get index.by_port port))
unfolding index_from
get-index_from [] index ip port = (refl, refl)
get-index_from (c ∷ cs) index ip port =
    let entry : Entry = record { container = c.name; container_id = c.id } in
    let rest =
      get-index_from cs
        (record {
          by_ip = set_all c.ips entry index.by_ip;
          by_port = set_all c.ports entry index.by_port;
        })
        ip port in
    (
      rest.0 ∙ ap (last_with (λ c. c.ips) cs ip) (get-set_all c.ips entry index.by_ip ip),
      rest.1 ∙ ap (last_with (λ c. c.ports) cs port) (get-set_all c.ports entry index.by_port port),
    )

-- An address or a published port is looked up to the last container that has it.
pub get-build_index :
    (cs : List Container) (ip : Text) (port : PortKey)
    → (get (build_index cs).by_ip ip ≡ last_with (λ c. c.ips) cs ip none)
      × (get (build_index cs).by_port port ≡ last_with (λ c. c.ports) cs port none)
unfolding build_index get
get-build_index cs ip port = get-index_from cs (record { by_ip = []; by_port = [] }) ip port
