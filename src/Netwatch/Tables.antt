-- ===== src/Netwatch/Tables.antt =====
-- netwatch.py, `_trim`: the tables of addresses and of cards stay bounded.
use Prim.Native.Nat.{min}
use homelab_agent.Prelude.{
  ℕ, ◌-◌, ◌≡◌, refl, sym, ap, ◌∙◌, true, false, some, List, [], ◌∷◌, map, arith, length,
  length-take, take, All, All-take, ◌==◌, nat_eq, list_eq, list_beq_iff, contains, leb, ltb,
  is_some, Bool-cases, inl, inr,
}
use homelab_agent.Prelude.Text.{Text}
use homelab_agent.Prelude.Dict.{Dict, get}
use homelab_agent.Prelude.Distinct
use homelab_agent.Prelude.Keys.{
  keys, remove_all, UniqueKeys, DistinctKeys, Holding, tally-remove_all, UniqueKeys-remove_all,
  length-eq-tally,
}
use homelab_agent.Prelude.Sort.{sort, All-sort, length-sort}
use homelab_agent.Netwatch.Detector.{trim, max_known}

map-same : (ks : List Text) → map (λ k. k) ks ≡ ks
map-same [] = refl
map-same (k ∷ ks) = ap (λ r. k ∷ r) (map-same ks)

module _ {ℓ} {V : Type ℓ} where
  Present : Dict Text V → Text → Type ℓ
  Present d k = (v : V) × (get d k ≡ some v) × (true ≡ true)

  Present-cons :
      (j : Text) (w : V) (d : Dict Text V) (ks : List Text)
      → All (Present d) ks
      → All (Present ((j, w) ∷ d)) ks
  unfolding Present get
  Present-cons j w d [] h = tt
  Present-cons j w d (k ∷ ks) ((v, at, _), h) = elim (Bool-cases (j == k)) [
    | inl hit ↦ ((w, rw hit refl, refl), Present-cons j w d ks h)
    | inr miss ↦ ((v, rw miss at, refl), Present-cons j w d ks h)
  ]

  keys-Present : (d : Dict Text V) → All (Present d) (keys d)
  unfolding keys Present get
  keys-Present [] = tt
  keys-Present ((k, v) ∷ d) =
      ((v, rw ((list_beq_iff k k).1 refl) refl, refl), Present-cons k v d (keys d) (keys-Present d))

  Present-Holding :
      (d : Dict Text V) (ks : List Text) → All (Present d) ks → Holding (λ _. true) d ks
  unfolding Present
  Present-Holding d [] h = tt
  Present-Holding d (k ∷ ks) (p, h) = (p, Present-Holding d ks h)

  contains-keys : (d : Dict Text V) (k : Text) → contains (keys d) k ≡ is_some (get d k)
  unfolding contains keys get
  contains-keys [] k = refl
  contains-keys ((j, v) ∷ d) k =
      ground (arith, contains-keys d k, list_beq_iff j k, list_beq_iff k j)

  keys-DistinctKeys : (d : Dict Text V) → UniqueKeys d → DistinctKeys (map (λ k. k) (keys d))
  unfolding keys
  keys-DistinctKeys [] u = tt
  keys-DistinctKeys ((k, v) ∷ d) (u, us) =
      (rw (map-same (keys d)) (contains-keys d k ∙ u), keys-DistinctKeys d us)

  length-keys : (d : Dict Text V) → length (keys d) ≡ length d
  unfolding keys
  length-keys [] = refl
  length-keys ((k, v) ∷ d) = omega (arith, length-keys d)

  stalest : (Text → ℕ) → Dict Text V → List Text
  stalest stamp d = take (length d - max_known) (sort (λ j k. leb (stamp j) (stamp k)) (keys d))

  stalest-DistinctKeys :
      (stamp : Text → ℕ) (d : Dict Text V) → UniqueKeys d → DistinctKeys (stalest stamp d)
  unfolding stalest
  stalest-DistinctKeys stamp d u = rw (sym (map-same (stalest stamp d))) (
      Distinct.DistinctKeys-take (λ k. k) (length d - max_known) _
        (Distinct.DistinctKeys-sort (λ k. k) (λ j k. leb (stamp j) (stamp k)) (keys d)
          (keys-DistinctKeys d u)))

  length-stalest :
      (stamp : Text → ℕ) (d : Dict Text V) → length (stalest stamp d) ≡ length d - max_known
  unfolding stalest
  length-stalest stamp d = omega (
    arith,
    length-take (length d - max_known) (sort (λ j k. leb (stamp j) (stamp k)) (keys d)),
    length-sort (λ j k. leb (stamp j) (stamp k)) (keys d),
    length-keys d,
  )

  trim_many :
      (stamp : Text → ℕ) (d : Dict Text V)
      → ltb max_known (length d) ≡ true
      → trim stamp d ≡ remove_all d (stalest stamp d)
  unfolding trim stalest
  trim_many stamp d h = rw h refl

  trim_few :
      (stamp : Text → ℕ) (d : Dict Text V) → ltb max_known (length d) ≡ false → trim stamp d ≡ d
  unfolding trim
  trim_few stamp d h = rw h refl

  pub trim-UniqueKeys :
      (stamp : Text → ℕ) (d : Dict Text V) → UniqueKeys d → UniqueKeys (trim stamp d)
  trim-UniqueKeys stamp d u = elim (Bool-cases (ltb max_known (length d))) [
    | inl many ↦ rw (trim_many stamp d many) (UniqueKeys-remove_all d (stalest stamp d) u)
    | inr few ↦ rw (trim_few stamp d few) u
  ]

  -- After `_trim`, a table has as many entries as before, and no more than MAX_KNOWN.
  pub length-trim :
      (stamp : Text → ℕ) (d : Dict Text V)
      → UniqueKeys d
      → length (trim stamp d) ≡ min (length d) max_known
  length-trim stamp d u = elim (Bool-cases (ltb max_known (length d))) [
    | inl many ↦
        let gone = stalest stamp d in
        rw (trim_many stamp d many) (
          ground (
            arith,
            tally-remove_all (λ _. true) d gone u (stalest-DistinctKeys stamp d u)
                (Present-Holding d gone holding),
            length-stalest stamp d,
            length-eq-tally d,
            length-eq-tally (remove_all d gone),
          ))
    | inr few ↦ rw (trim_few stamp d few) (ground arith)
  ]
    where
      holding : All (Present d) (stalest stamp d)
      holding =
          unfold stalest in
          All-take (Present d) (length d - max_known) _
            (All-sort (λ j k. leb (stamp j) (stamp k)) (Present d) (keys d) (keys-Present d))
