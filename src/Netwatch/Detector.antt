-- ===== src/Netwatch/Detector.antt =====
-- netwatch.py: the state of `Detector` and its methods. Times are whole seconds of one clock. A
-- finding's title, message and hint are text for people and are left out; `hashlib` is a
-- parameter, `digest`, the first ten hexadecimal digits of a key's hash.
use homelab_agent.Prelude.{
  ℕ, zero, suc, ◌+◌, ◌-◌, Bool, true, false, ◌&&◌, ◌||◌, Option, none, some, List, [], ◌∷◌, map,
  length, take, keep_if, nat_eq, list_eq, leb, ltb, eqb, if◌then◌else◌,
}
use homelab_agent.Prelude.Text.{Text}
use homelab_agent.Prelude.Dict.{Dict, get, set, remove}
use homelab_agent.Prelude.Keys.{keys, values, remove_all}
use homelab_agent.Prelude.Sort.{sort}

abbrev pub learn_seconds : ℕ
learn_seconds = 300

abbrev pub active_seconds : ℕ
active_seconds = 3600

abbrev pub idle_binding_seconds : ℕ
idle_binding_seconds = 3600

abbrev pub max_findings : ℕ
max_findings = 200

abbrev pub max_info_findings : ℕ
max_info_findings = 60

abbrev pub max_known : ℕ
max_known = 2000

pub data Severity : Type 0 where
  info warn bad : Severity

pub data Kind : Type 0 where
  new_device gateway_changed address_reassigned arp_conflict second_dhcp_server : Kind

pub record Finding : Type 0 where
  pub id : Text
  pub kind : Kind
  pub severity : Severity
  pub first_seen : ℕ
  pub last : ℕ
  pub count : ℕ
  pub ip : Text
  pub mac : Option Text
  pub previous : Option Text

pub record Binding : Type 0 where
  pub mac : Text
  pub first : ℕ
  pub last : ℕ

pub record Device : Type 0 where
  pub first : ℕ
  pub ip : Text

pub record Server : Type 0 where
  pub mac : Option Text
  pub first : ℕ
  pub last : ℕ

pub record Detector : Type 0 where
  pub bindings : Dict Text Binding
  pub known : Dict Text Device
  pub servers : Dict Text Server
  pub findings : Dict Text Finding
  pub gateway : Option Text
  pub learning_until : ℕ
  pub dirty : Bool

abbrev pub Findings : Type 0
Findings = Dict Text Finding

abbrev pub is_empty {ℓ} : {A : Type ℓ} → List A → Bool
is_empty [] = true
is_empty (_ ∷ _) = false

-- `__init__`, from the saved tables
unfoldable pub start : Dict Text Binding → Dict Text Device → Dict Text Server → ℕ → Detector
start bindings known servers started = record {
  bindings = bindings;
  known = known;
  servers = servers;
  findings = [];
  gateway = none;
  learning_until = if is_empty known && is_empty bindings then started + learn_seconds else started;
  dirty = false;
}

abbrev pub id_of : Finding → Text
id_of f = f.id

abbrev pub is_info : Finding → Bool
is_info f = elim f.severity [ info ↦ true | warn ↦ false | bad ↦ false ]

-- `rank`
abbrev pub rank : Finding → ℕ
rank f = elim f.severity [ info ↦ 0 | warn ↦ 1 | bad ↦ 2 ]

-- the order of `min`'s key `(rank, last)`
unfoldable pub less_severe : Finding → Finding → Bool
less_severe f g = ltb (rank f) (rank g) || eqb (rank f) (rank g) && ltb f.last g.last

abbrev pub older : Finding → Finding → Bool
older f g = leb f.last g.last

-- `min`: the first of the smallest
unfoldable pub least : Finding → List Finding → Finding
unfolding less_severe
least f [] = f
least f (g ∷ fs) = least (if less_severe g f then g else f) fs

-- `for stale in info[: max(0, len(info) - MAX_INFO_FINDINGS)]: del …`
unfoldable pub drop_info : Findings → Findings
drop_info fs =
    let notes = sort older (keep_if is_info (values fs)) in
    remove_all fs (map (λ f. f.id) (take (length notes - max_info_findings) notes))

-- one round of the `while`
unfoldable pub drop_least : Findings → Findings
drop_least [] = []
drop_least ((k, f) ∷ fs) = remove ((k, f) ∷ fs) (least f (values fs)).id

-- `while len(self.findings) > MAX_FINDINGS`, with the rounds that it needs
unfoldable pub drop_excess : ℕ → Findings → Findings
drop_excess zero fs = fs
drop_excess (suc n) fs = elim (ltb max_findings (length fs)) [
  | true ↦ drop_excess n (drop_least fs)
  | false ↦ fs
]

-- `_evict`
unfoldable pub evict : Findings → Findings
evict fs = let rest = drop_info fs in drop_excess (length rest) rest

-- what `_raise` is given, the key's digest and the texts apart
pub record Report : Type 0 where
  pub kind : Kind
  pub severity : Severity
  pub ip : Text
  pub mac : Option Text
  pub previous : Option Text

unfoldable pub new_finding : Text → Report → ℕ → Finding
new_finding id r now = record {
  id = id;
  kind = r.kind;
  severity = r.severity;
  first_seen = now;
  last = now;
  count = 1;
  ip = r.ip;
  mac = r.mac;
  previous = r.previous;
}

-- `_raise`, on the table of findings
unfoldable pub raise : Text → Report → ℕ → Findings → Findings
raise id r now fs = elim (get fs id) [
  | some found ↦ set fs id (record found { last = now; count = found.count + 1 })
  | none ↦ evict (set fs id (new_finding id r now))
]

-- `_trim`, one table: the stalest keys beyond MAX_KNOWN go
unfoldable pub trim {ℓ} : {V : Type ℓ} → (Text → ℕ) → Dict Text V → Dict Text V
trim stamp table =
    if ltb max_known (length table)
    then remove_all table
        (take (length table - max_known) (sort (λ j k. leb (stamp j) (stamp k)) (keys table)))
    else table

-- `table[k].get("last", table[k].get("first", 0))`
abbrev pub device_stamp : Dict Text Device → Text → ℕ
device_stamp d k = elim (get d k) [ none ↦ 0 | some v ↦ v.first ]

abbrev pub binding_stamp : Dict Text Binding → Text → ℕ
binding_stamp d k = elim (get d k) [ none ↦ 0 | some v ↦ v.last ]

unfoldable pub trim_tables : Detector → Detector
trim_tables d = record d {
  known = trim (device_stamp d.known) d.known;
  bindings = trim (binding_stamp d.bindings) d.bindings;
}
