-- ===== src/Sockets/Search.antt =====
-- sockets.py: `match` on the index of `build_index`, against a search through the sockets.
use homelab_agent.Prelude.{
  ℕ, ◌≡◌, refl, sym, ap, ◌∙◌, inl, inr, Bool, true, false, ◌&&◌, Option, none, some, List, [], ◌∷◌,
  arith, HasEq, ◌==◌, nat_eq, list_eq, option_eq, if◌then◌else◌, Bool-cases, Option-cases,
  ==-eq_of_true,
}
use homelab_agent.Prelude.Text.{Text}
use homelab_agent.Prelude.Dict.{Dict, get, get-set}
use homelab_agent.Connections.Flow.{Flow, PortKey, port_key_eq}
use homelab_agent.Sockets.Table.{
  Socket, ExactKey, SocketIndex, exact_key_eq, set_default, exact_key_of, port_key_of,
  index_sockets, build_index, look_exact, look_port, match_socket, ◌or_else◌,
}

-- the inode of the first socket that passes a test
unfoldable pub first_inode : (Socket → Bool) → List Socket → Option ℕ
first_inode p [] = none
first_inode p (s ∷ ss) = if p s then some s.inode else first_inode p ss

abbrev pub has_port : Text → Option ℕ → Socket → Bool
has_port proto port s = s.proto == proto && some s.local_port == port

-- from this port of the host to this port of another
abbrev pub talks_to : Text → Option ℕ → Text → Option ℕ → Socket → Bool
talks_to proto local ip port s =
    s.proto == proto
    && some s.local_port == local
    && s.remote_ip == some ip
    && s.remote_port == port

or_else-none : (a : Option ℕ) → (a or_else none) ≡ a
or_else-none none = refl
or_else-none (some n) = refl

or_else_assoc : (a b c : Option ℕ) → ((a or_else b) or_else c) ≡ (a or_else b or_else c)
or_else_assoc none b c = refl
or_else_assoc (some n) b c = refl

or_else-if :
    (t : Bool) (v : ℕ) (o : Option ℕ)
    → ((if t then some v else none) or_else o) ≡ (if t then some v else o)
or_else-if true v o = refl
or_else-if false v o = refl

get-set_default {ℓ} :
    {K : Type ℓ} ⦃e : HasEq K⦄ (d : Dict K ℕ) (k j : K) (v : ℕ)
    → get (set_default d k v) j ≡ (get d j or_else (if k == j then some v else none))
get-set_default d k j v = elim (Option-cases (get d k)) [
  | inl absent ↦ rw absent (
      get-set d k j v ∙ (elim (Bool-cases (k == j)) [
        | inl same ↦
            let here : get d j ≡ none = ap (get d) (sym (==-eq_of_true k j same)) ∙ absent in
            rw same (rw here refl)
        | inr other ↦ rw other (sym (or_else-none (get d j)))
      ]))
  | inr (w, held) ↦ rw held (elim (Bool-cases (k == j)) [
    | inl same ↦
        let here : get d j ≡ some w = ap (get d) (sym (==-eq_of_true k j same)) ∙ held in
        rw here refl
    | inr other ↦ rw other (sym (or_else-none (get d j)))
  ])
]

first_inode-none :
    (p : Socket → Bool) (ss : List Socket) → ((s : Socket) → p s ≡ false) → first_inode p ss ≡ none
unfolding first_inode
first_inode-none p [] h = refl
first_inode-none p (s ∷ ss) h = rw (h s) (first_inode-none p ss h)

exact-index_sockets :
    (ss : List Socket) (index : SocketIndex) (k : ExactKey)
    → get (index_sockets ss index).exact k
      ≡ (get index.exact k or_else first_inode (λ s. exact_key_of s == k) ss)
unfolding index_sockets first_inode
exact-index_sockets [] index k = sym (or_else-none (get index.exact k))
exact-index_sockets (s ∷ ss) index k =
    let later : Option ℕ = first_inode (λ s. exact_key_of s == k) ss in
    exact-index_sockets ss
      (record {
        exact = set_default index.exact (exact_key_of s) s.inode;
        by_port = set_default index.by_port (port_key_of s) s.inode;
      })
      k
    ∙ ap (λ o. o or_else later) (get-set_default index.exact (exact_key_of s) k s.inode)
    ∙ or_else_assoc (get index.exact k) (if exact_key_of s == k then some s.inode else none) later
    ∙ ap (λ o. get index.exact k or_else o) (or_else-if (exact_key_of s == k) s.inode later)

by_port-index_sockets :
    (ss : List Socket) (index : SocketIndex) (k : PortKey)
    → get (index_sockets ss index).by_port k
      ≡ (get index.by_port k or_else first_inode (λ s. port_key_of s == k) ss)
unfolding index_sockets first_inode
by_port-index_sockets [] index k = sym (or_else-none (get index.by_port k))
by_port-index_sockets (s ∷ ss) index k =
    let later : Option ℕ = first_inode (λ s. port_key_of s == k) ss in
    by_port-index_sockets ss
      (record {
        exact = set_default index.exact (exact_key_of s) s.inode;
        by_port = set_default index.by_port (port_key_of s) s.inode;
      })
      k
    ∙ ap (λ o. o or_else later) (get-set_default index.by_port (port_key_of s) k s.inode)
    ∙ or_else_assoc (get index.by_port k) (if port_key_of s == k then some s.inode else none) later
    ∙ ap (λ o. get index.by_port k or_else o) (or_else-if (port_key_of s == k) s.inode later)

first_inode_cong :
    (p q : Socket → Bool) (ss : List Socket)
    → ((s : Socket) → p s ≡ q s)
    → first_inode p ss ≡ first_inode q ss
unfolding first_inode
first_inode_cong p q [] h = refl
first_inode_cong p q (s ∷ ss) h =
    rw (h s) (ap (λ o. if q s then some s.inode else o) (first_inode_cong p q ss h))

look_exact-first_inode :
    (ss : List Socket) (proto : Text) (local : Option ℕ) (ip : Text) (port : Option ℕ)
    → look_exact (build_index ss) proto local ip port
      ≡ first_inode (talks_to proto local ip port) ss
unfolding build_index get
look_exact-first_inode ss proto none ip port =
    sym (first_inode-none (talks_to proto none ip port) ss (λ s. ground arith))
look_exact-first_inode ss proto (some local) ip port =
    exact-index_sockets ss (record { exact = []; by_port = [] })
      (record { proto = proto; local_port = local; remote_ip = some ip; remote_port = port })

look_port-first_inode :
    (ss : List Socket) (proto : Text) (local : Option ℕ)
    → look_port (build_index ss) proto local ≡ first_inode (has_port proto local) ss
unfolding build_index get
look_port-first_inode ss proto none =
    sym (first_inode-none (has_port proto none) ss (λ s. ground arith))
look_port-first_inode ss proto (some local) =
    by_port-index_sockets ss (record { exact = []; by_port = [] })
      (record { port = local; proto = proto })
    ∙ first_inode_cong (λ s. port_key_of s == record { port = local; proto = proto })
        (has_port proto (some local)) ss (λ s. ground arith)

-- The socket behind a flow is the first of the table that talks from the flow's source to its
-- destination, otherwise the first that talks the other way, otherwise the first on the source's
-- port, otherwise the first on the destination's.
pub match_socket-first_inode :
    (flow : Flow) (ss : List Socket)
    → match_socket flow (build_index ss) ≡ (
        first_inode (talks_to flow.proto flow.orig.sport flow.orig.dst flow.orig.dport) ss
        or_else first_inode (talks_to flow.proto flow.orig.dport flow.orig.src flow.orig.sport) ss
        or_else first_inode (has_port flow.proto flow.orig.sport) ss
        or_else first_inode (has_port flow.proto flow.orig.dport) ss)
unfolding match_socket
match_socket-first_inode flow ss =
    rw
      (
        look_exact-first_inode ss flow.proto flow.orig.sport flow.orig.dst flow.orig.dport,
        look_exact-first_inode ss flow.proto flow.orig.dport flow.orig.src flow.orig.sport,
        look_port-first_inode ss flow.proto flow.orig.sport,
        look_port-first_inode ss flow.proto flow.orig.dport,
      )
      refl
