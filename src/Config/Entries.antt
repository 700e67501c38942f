-- ===== src/Config/Entries.antt =====
-- config.py: the lists of folders that `_clean_paths` answers, and the entries that come out of
-- them again where they are split.
use homelab_agent.Prelude.{
  ℕ, ◌≡◌, refl, sym, ap, ◌∙◌, ◌⊎◌, inl, inr, Bool, true, false, ◌||◌, List, [], ◌∷◌, ◌++◌, ◌==◌,
  any, any-append, All, contains, arith, nat_eq, list_eq, Bool-cases,
}
use mathlib.Core.Path.{subst}
use mathlib.Core.List.{reverse, reverse-cons}
use homelab_agent.Prelude.Text.{Text, text, strip, strip_left, starts_with, split_on}
use homelab_agent.Prelude.Result.{Result, ok, err, ◌>>=◌, Result-cases}
use homelab_agent.Disk.Path.{slash, join_with, strip_slashes, rstrip_slashes}
use homelab_agent.Config.Clean.{
  ConfigError, is_separator, split_entries, or_root, clean_entry, clean_entries, clean_paths,
  forbidden_paths,
}

-- a path from the root, spelled like no system directory, without "..", that ends no entry of a list
abbrev pub IsEntry : Text → Type 0
IsEntry path =
    (starts_with path (text "/") ≡ true)
    × (contains (split_on slash path) (text "..") ≡ false)
    × (contains forbidden_paths path ≡ false)
    × (any is_separator path ≡ false)

-- such paths with a comma after each but the last, which give these paths where it is split
abbrev pub IsEntries : Text → Type 0
IsEntries s =
    (out : List Text) × All IsEntry out
    × (s ≡ join_with (text ",") out)
    × ((out ≡ []) ⊎ (split_entries s ≡ out))

any-reverse : (p : ℕ → Bool) (s : Text) → any p (reverse s) ≡ any p s
unfolding any
any-reverse p [] = refl
any-reverse p (c ∷ s) =
    ap (any p) (reverse-cons c s)
    ∙ any-append p (reverse s) (c ∷ [])
    ∙ ground (arith, any-reverse p s)

any-strip_left : (p : ℕ → Bool) (s : Text) → any p s ≡ false → any p (strip_left s) ≡ false
unfolding any strip_left
any-strip_left p [] h = refl
any-strip_left p (c ∷ s) h = ground (arith, any-strip_left p s)

any-strip : (p : ℕ → Bool) (s : Text) → any p s ≡ false → any p (strip s) ≡ false
unfolding strip
any-strip p s h =
    any-reverse p (strip_left (reverse (strip_left s)))
    ∙ any-strip_left p (reverse (strip_left s))
        (any-reverse p (strip_left s) ∙ any-strip_left p s h)

any-strip_slashes : (p : ℕ → Bool) (s : Text) → any p s ≡ false → any p (strip_slashes s) ≡ false
unfolding any strip_slashes
any-strip_slashes p [] h = refl
any-strip_slashes p (c ∷ s) h = ground (arith, any-strip_slashes p s)

any-or_root : (s : Text) → any is_separator s ≡ false → any is_separator (or_root s) ≡ false
unfolding or_root rstrip_slashes
any-or_root s h = elim (Bool-cases (rstrip_slashes s == [])) [
  | inl empty ↦ rw empty (unfold any in refl)
  | inr bare ↦ rw bare (
      any-reverse is_separator (strip_slashes (reverse s))
      ∙ any-strip_slashes is_separator (reverse s) (any-reverse is_separator s ∙ h))
]

-- the pieces of a split have no separator
pieces_free : (s : Text) → All (λ w. any is_separator w ≡ false) (split_entries s)
unfolding split_entries any
pieces_free [] = (refl, tt)
pieces_free (c ∷ s) = elim (Bool-cases (is_separator c)) [
  | inl ends ↦ rw ends (refl, pieces_free s)
  | inr inside ↦ rw inside (first_free c (split_entries s) inside (pieces_free s))
]
  where
    first_free :
        (c : ℕ) (ws : List Text)
        → is_separator c ≡ false
        → All (λ w. any is_separator w ≡ false) ws
        → All
            (λ w. any is_separator w ≡ false)
            (elim ws [ [] ↦ (c ∷ []) ∷ [] | w ∷ ws ↦ (c ∷ w) ∷ ws ])
    first_free c [] h free = (ground arith, tt)
    first_free c (w ∷ ws) h (free, rest) = (ground arith, rest)

clean_entry-IsEntry :
    (raw path : Text) → any is_separator raw ≡ false → clean_entry raw ≡ ok path → IsEntry path
unfolding clean_entry
clean_entry-IsEntry raw path free h =
    let entry : Text = or_root raw in
    elim (Bool-cases (starts_with entry (text "/"))) [
      | inr relative ↦ ground arith
      | inl absolute ↦ elim (Bool-cases (contains (split_on slash entry) (text ".."))) [
        | inl parent ↦ ground arith
        | inr apart ↦ elim (Bool-cases (contains forbidden_paths entry || entry == text "/")) [
          | inl system ↦ ground arith
          | inr fine ↦ ground (arith, any-or_root raw free)
        ]
      ]
    ]

entries_step :
    (b : Bool) (r : Result ConfigError Text) (rs : Result ConfigError (List Text)) (out : List Text)
    → (elim b [ true ↦ rs | false ↦ r >>= λ entry. rs >>= λ tail. ok (entry ∷ tail) ]) ≡ ok out
    → ((b ≡ true) × (rs ≡ ok out))
      ⊎ ((entry : Text) × (tail : List Text) × (r ≡ ok entry)
          × (rs ≡ ok tail)
          × (out ≡ entry ∷ tail))
entries_step true r rs out h = inl (refl, h)
entries_step false (err e) rs out h = ground arith
entries_step false (ok entry) (err e) out h = ground arith
entries_step false (ok entry) (ok tail) out h = inr (entry, tail, refl, refl, sym (ground arith))

clean_entries-IsEntry :
    (raws out : List Text)
    → All (λ w. any is_separator w ≡ false) raws
    → clean_entries raws ≡ ok out
    → All IsEntry out
unfolding clean_entries
clean_entries-IsEntry [] out free h =
    let none_left : [] ≡ out = ground arith in subst (All IsEntry) none_left tt
clean_entries-IsEntry (raw ∷ raws) out (free, rest) h =
    elim (entries_step (strip raw == []) (clean_entry (strip raw)) (clean_entries raws) out h) [
      | inl (blank, later) ↦ clean_entries-IsEntry raws out rest later
      | inr (entry, tail, first, later, whole) ↦ subst (All IsEntry) (sym whole) (
        clean_entry-IsEntry (strip raw) entry (any-strip is_separator raw free) first,
        clean_entries-IsEntry raws tail rest later,
      )
    ]

-- splitting what was joined
split_entries-piece :
    (w s : Text)
    → any is_separator w ≡ false
    → split_entries (w ++ text "," ++ s) ≡ w ∷ split_entries s
unfolding split_entries any
split_entries-piece [] s h = refl
split_entries-piece (c ∷ w) s h = rw (split_entries-piece w s (ground arith)) (ground arith)

split_entries-last : (w : Text) → any is_separator w ≡ false → split_entries w ≡ w ∷ []
unfolding split_entries any
split_entries-last [] h = refl
split_entries-last (c ∷ w) h = rw (split_entries-last w (ground arith)) (ground arith)

split_entries-join_with :
    (w : Text) (ws : List Text)
    → any is_separator w ≡ false
    → All IsEntry ws
    → split_entries (join_with (text ",") (w ∷ ws)) ≡ w ∷ ws
unfolding join_with
split_entries-join_with w [] free rest = split_entries-last w free
split_entries-join_with w (v ∷ ws) free (entry, rest) =
    split_entries-piece w (join_with (text ",") (v ∷ ws)) free
    ∙ ap (λ r. w ∷ r) (split_entries-join_with v ws entry.3 rest)

pub clean_paths-IsEntries : (value s : Text) → clean_paths value ≡ ok s → IsEntries s
unfolding clean_paths
clean_paths-IsEntries value s h = elim (Result-cases (clean_entries (split_entries value))) [
  | inl (e, broken) ↦ ground arith
  | inr (out, found) ↦
      let fine : All IsEntry out =
        clean_entries-IsEntry (split_entries value) out (pieces_free value) found in
      let same : s ≡ join_with (text ",") out = ground arith in
      (out, fine, same, split_of out fine s same)
]
  where
    split_of :
        (out : List Text)
        → All IsEntry out
        → (s : Text) → s ≡ join_with (text ",") out
        → (out ≡ []) ⊎ (split_entries s ≡ out)
    split_of [] fine s same = inl refl
    split_of (w ∷ ws) (entry, fine) s same =
        inr (ap split_entries same ∙ split_entries-join_with w ws entry.3 fine)
