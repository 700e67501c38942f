-- ===== src/Netwatch/Notes.antt =====
-- netwatch.py, the first half of `_evict`: how many notes go, and that nothing else does.
use Prim.Native.Nat.{min}
use homelab_agent.Prelude.{
  ◌-◌, ◌≤◌, ◌≡◌, refl, ◌∙◌, Bool, false, some, List, [], ◌∷◌, map, arith, length, length-take,
  length-map, take, keep_if, All, All-take, nat_eq, list_eq,
}
use homelab_agent.Prelude.Text.{Text}
use homelab_agent.Prelude.Dict.{get}
use homelab_agent.Prelude.Distinct
use homelab_agent.Prelude.Keys.{
  values, remove_all, UniqueKeys, DistinctKeys, Holding, tally, tally-remove_all,
  tally-remove_all_le, UniqueKeys-remove_all, get-remove_all,
}
use homelab_agent.Prelude.Named.{
  Named, Passing, keep_if-Passing, values-Held, ids-DistinctKeys, Named-remove_all, Passing-Holding,
  Passing-contains,
}
use homelab_agent.Prelude.Sort.{sort, All-sort, length-sort}
use homelab_agent.Netwatch.Detector.{
  id_of, Finding, Findings, is_info, older, drop_info, max_info_findings,
}

length-notes : (fs : Findings) → length (keep_if is_info (values fs)) ≡ tally is_info fs
unfolding keep_if values
length-notes [] = refl
length-notes ((k, f) ∷ fs) = ground (arith, length-notes fs)

module _ (fs : Findings) (u : UniqueKeys fs) (n : Named id_of fs) where
  notes : List Finding
  notes = sort older (keep_if is_info (values fs))

  notes-Passing : All (Passing id_of is_info fs) notes
  unfolding notes
  notes-Passing =
      All-sort older (Passing id_of is_info fs) _
        (keep_if-Passing id_of is_info fs (values fs) (values-Held id_of fs u n))

  notes-DistinctKeys : DistinctKeys (map (λ f. f.id) notes)
  unfolding notes
  notes-DistinctKeys =
      Distinct.DistinctKeys-sort (λ f. f.id) older _
        (Distinct.DistinctKeys-keep_if id_of is_info (values fs) (ids-DistinctKeys id_of fs u n))

  length-notes_sorted : length notes ≡ tally is_info fs
  unfolding notes
  length-notes_sorted = length-sort older (keep_if is_info (values fs)) ∙ length-notes fs

  gone : List Text
  gone = map (λ f. f.id) (take (length notes - max_info_findings) notes)

  drop_info-eq : drop_info fs ≡ remove_all fs gone
  unfolding drop_info gone notes
  drop_info-eq = refl

  pub drop_info-UniqueKeys : UniqueKeys (drop_info fs)
  drop_info-UniqueKeys = rw drop_info-eq (UniqueKeys-remove_all fs gone u)

  pub drop_info-Named : Named id_of (drop_info fs)
  drop_info-Named = rw drop_info-eq (Named-remove_all id_of fs gone n)

  gone-Holding : Holding is_info fs gone
  unfolding gone
  gone-Holding =
      Passing-Holding id_of is_info fs _
        (All-take (Passing id_of is_info fs) (length notes - max_info_findings) notes notes-Passing)

  gone-DistinctKeys : DistinctKeys gone
  unfolding gone
  gone-DistinctKeys =
      Distinct.DistinctKeys-take (λ f. f.id) (length notes - max_info_findings) notes
        notes-DistinctKeys

  length-gone : length gone ≡ min (tally is_info fs - max_info_findings) (tally is_info fs)
  unfolding gone
  length-gone = omega (
    arith,
    length-map (λ (f : Finding). f.id) notes_gone,
    length-take (length notes - max_info_findings) notes,
    length-notes_sorted,
  )
    where
      notes_gone : List Finding
      notes_gone = take (length notes - max_info_findings) notes

  -- At most 60 notes are left.
  pub drop_info_bounded : tally is_info (drop_info fs) ≤ max_info_findings
  drop_info_bounded = rw drop_info-eq (
      omega (arith, tally-remove_all is_info fs gone u gone-DistinctKeys gone-Holding, length-gone))

  -- Nothing but notes goes.
  pub get-drop_info :
      (k : Text) (f : Finding)
      → get fs k ≡ some f
      → is_info f ≡ false
      → get (drop_info fs) k ≡ some f
  unfolding gone
  get-drop_info k f at severe = rw drop_info-eq (
      get-remove_all fs gone k (
        Passing-contains id_of is_info fs _ k f
          (All-take (Passing id_of is_info fs) (length notes - max_info_findings) notes
            notes-Passing)
          at severe)
      ∙ at)

  pub tally-drop_info : (p : Finding → Bool) → tally p (drop_info fs) ≤ tally p fs
  tally-drop_info p = rw drop_info-eq (tally-remove_all_le p fs gone)
