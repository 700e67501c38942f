-- ===== src/Netwatch/Findings.antt =====
-- netwatch.py, `_raise` and `_evict`: the table of findings stays bounded and well formed.
use mathlib.Core.Option.{some-injective}
use mathlib.Core.Path.{subst}
use homelab_agent.Prelude.{
  ℕ, suc, ◌≤◌, ◌<◌, ◌≡◌, refl, sym, ap, ◌∙◌, Bool, true, false, some, List, [], ◌∷◌, arith, length,
  All, ◌==◌, nat_eq, list_eq, list_beq_iff, leb, if◌then◌else◌, Bool-cases, inl, inr,
}
use homelab_agent.Prelude.Text.{Text}
use homelab_agent.Prelude.Dict.{get, remove}
use homelab_agent.Prelude.Keys.{
  values, UniqueKeys, tally, tally-remove, UniqueKeys-remove, length-eq-tally, get-remove,
}
use homelab_agent.Prelude.Named.{Named, Named-remove, Held, values-Held}
use homelab_agent.Netwatch.Detector.{id_of, Finding, Findings, rank, less_severe, least, drop_least}

-- Whatever holds of all findings of a list holds of the least one.
least-All :
    (P : Finding → Type 0) (f : Finding) (gs : List Finding) → All P (f ∷ gs) → P (least f gs)
unfolding least
least-All P f [] (h, _) = h
least-All P f (g ∷ gs) (h, (hg, hs)) = elim (Bool-cases (less_severe g f)) [
  | inl less ↦ rw (less, least) (least-All P g gs (hg, hs))
  | inr not_less ↦ rw (not_less, least) (least-All P f gs (h, hs))
]

less_severe-true : (g f : Finding) → less_severe g f ≡ true → rank g ≤ rank f
unfolding less_severe
less_severe-true g f h = ground arith

less_severe-false : (g f : Finding) → less_severe g f ≡ false → rank f ≤ rank g
unfolding less_severe
less_severe-false g f h = ground arith

le-All : (m n : ℕ) (gs : List Finding) → m ≤ n → All (λ g. n ≤ rank g) gs → All (λ g. m ≤ rank g) gs
le-All m n [] h hs = tt
le-All m n (g ∷ gs) h (hg, hs) = (omega arith, le-All m n gs h hs)

least-cons :
    (f g : Finding) (gs : List Finding)
    → least f (g ∷ gs) ≡ least (if less_severe g f then g else f) gs
unfolding least
least-cons f g gs = refl

-- No finding of the list is less severe than the least one.
least-le :
    (f : Finding) (gs : List Finding)
    → (rank (least f gs) ≤ rank f) × All (λ g. rank (least f gs) ≤ rank g) gs
unfolding least
least-le f [] = (omega arith, tt)
least-le f (g ∷ gs) = elim (Bool-cases (less_severe g f)) [
  | inl less ↦
      let below = least-le g gs in
      let same : least f (g ∷ gs) ≡ least g gs =
        least-cons f g gs ∙ ap (λ b. least (if b then g else f) gs) less in
      subst (λ m. All (λ h. m ≤ rank h) (f ∷ g ∷ gs)) (sym (ap rank same))
        (omega (arith, below.0, less_severe-true g f less), below)
  | inr not_less ↦
      let below = least-le f gs in
      let same : least f (g ∷ gs) ≡ least f gs =
        least-cons f g gs ∙ ap (λ b. least (if b then g else f) gs) not_less in
      subst (λ m. All (λ h. m ≤ rank h) (f ∷ g ∷ gs)) (sym (ap rank same))
        (below.0, (omega (arith, below.0, less_severe-false g f not_less), below.1))
]

-- how many findings are at least so severe
abbrev pub at_least : ℕ → Finding → Bool
at_least r f = leb r (rank f)

tally-at_least :
    (r : ℕ) (fs : Findings) → All (λ f. r ≤ rank f) (values fs) → tally (at_least r) fs ≡ length fs
unfolding values
tally-at_least r [] h = refl
tally-at_least r ((k, f) ∷ fs) (h, hs) = ground (arith, tally-at_least r fs hs)

-- The round takes out a finding of the table that none undercuts in severity.
IsMildest : Findings → Finding → Type 0
IsMildest fs w =
    Held id_of fs w
    × ((r : ℕ) → r ≤ rank w → tally (at_least r) fs ≡ length fs)
    × (drop_least fs ≡ remove fs w.id)

drop_least-IsMildest :
    (fs : Findings)
    → UniqueKeys fs
    → Named id_of fs
    → 0 < length fs
    → (w : Finding) × IsMildest fs w
unfolding IsMildest drop_least values
drop_least-IsMildest [] u n h = ground arith
drop_least-IsMildest ((k, f) ∷ fs) u n h = (
  least f (values fs),
  (
    least-All (Held id_of ((k, f) ∷ fs)) f (values fs) held,
    λ r le.
        tally-at_least r ((k, f) ∷ fs)
          (le-All r (rank (least f (values fs))) (f ∷ values fs) le (least-le f (values fs))),
    refl,
  ),
)
  where
    held : All (Held id_of ((k, f) ∷ fs)) (f ∷ values fs)
    held = values-Held id_of ((k, f) ∷ fs) u n

module _ (fs : Findings) (u : UniqueKeys fs) (n : Named id_of fs) (many : 0 < length fs) where
  pub drop_least-UniqueKeys : UniqueKeys (drop_least fs)
  unfolding IsMildest
  drop_least-UniqueKeys =
      let (w, (held, severe, eq)) = drop_least-IsMildest fs u n many in
      rw eq (UniqueKeys-remove fs w.id u)

  pub drop_least-Named : Named id_of (drop_least fs)
  unfolding IsMildest
  drop_least-Named =
      let (w, (held, severe, eq)) = drop_least-IsMildest fs u n many in
      rw eq (Named-remove id_of fs w.id n)

  pub tally-drop_least : (p : Finding → Bool) → tally p (drop_least fs) ≤ tally p fs
  unfolding IsMildest
  tally-drop_least p =
      let (w, (held, severe, eq)) = drop_least-IsMildest fs u n many in
      rw eq (ground (arith, tally-remove p fs w.id w held))

  pub length-drop_least : suc (length (drop_least fs)) ≡ length fs
  unfolding IsMildest
  length-drop_least =
      let (w, (held, severe, eq)) = drop_least-IsMildest fs u n many in
      rw eq (
        omega (
          arith,
          tally-remove (λ _. true) fs w.id w held,
          length-eq-tally fs,
          length-eq-tally (remove fs w.id),
        ))

  -- A finding stays when fewer findings than the table holds are as severe.
  pub get-drop_least :
      (k : Text) (f : Finding)
      → get fs k ≡ some f
      → tally (at_least (rank f)) fs < length fs
      → get (drop_least fs) k ≡ some f
  unfolding IsMildest
  get-drop_least k f at few =
      let (w, (held, severe, eq)) = drop_least-IsMildest fs u n many in
      rw eq (get-remove fs w.id k u ∙ rw (stays w held severe) at)
    where
      stays :
          (w : Finding)
          → Held id_of fs w
          → ((r : ℕ) → r ≤ rank w → tally (at_least r) fs ≡ length fs)
          → (w.id == k) ≡ false
      stays w held severe = elim (Bool-cases (w.id == k)) [
        | inr apart ↦ apart
        | inl hit ↦
            let id : w.id ≡ k = (list_beq_iff w.id k).0 hit in
            let same : some w ≡ some f = sym held ∙ ap (get fs) id ∙ at in
            let equal : w ≡ f = some-injective w f same in
            let all : tally (at_least (rank f)) fs ≡ length fs =
              severe (rank f) (omega (arith, ap rank equal)) in
            ground (arith, all)
      ]
