-- ===== src/Files/Safety.antt =====
-- files.py: what `write_file` leaves behind when it raises and when it does not.
use homelab_agent.Prelude.{
  ℕ, ◌+◌, ◌<◌, ◌≡◌, ◌⊎◌, refl, inl, inr, Bool, true, false, not, Option, none, some, arith, eqb,
  ltb, sym, ap, ◌∙◌, Bool-cases, Option-cases, if◌then◌else◌,
}
use homelab_agent.Prelude.Text.{Text}
use homelab_agent.Files.Write.{
  File, Entry, absent, irregular, regular, Site, Run, Upload, refused, not_started, broke_off, ran,
  WriteError, no_name, not_writable, no_folder, helper_failed, gone, already_exists,
  changed_on_disk, write_file, write_entry, place, place_script, outcome_of, look_after, entry_met,
  moved_on, is_conflict,
}

abbrev are_none : Option Entry → Option Entry → Bool
are_none none none = true
are_none _ _ = false

-- nobody else puts anything at the name while the helper is at work
abbrev pub is_alone : Upload → Bool
is_alone (ran run) = are_none run.appeared run.meanwhile
is_alone _ = true

-- an error that stands before the helper's script has begun
abbrev pub is_early : WriteError → Bool
is_early (helper_failed why) = false
is_early gone = false
is_early _ = true

-- the file has been changed by more than a millisecond since it was opened
abbrev pub IsChanged : Entry → Option ℕ → Type 0
IsChanged (regular file) (some opened) = (opened + 1 < file.modified) ⊎ (file.modified + 1 < opened)
IsChanged _ _ = ⊥

-- there is a file here
abbrev pub IsFile : Entry → Type 0
IsFile (regular file) = Unit
IsFile _ = ⊥

-- what a result of `write_file` tells of the entry before and after it
abbrev pub IsWritten : Site → Entry → Text → Bool → Option ℕ → Option WriteError × Entry → Type 0
IsWritten site entry content overwrite expected (none, after) =
    (site.is_name ≡ true)
    × (site.is_writable ≡ true)
    × (site.is_folder ≡ true)
    × ((entry ≡ absent) ⊎ (IsFile entry × (overwrite ≡ true)))
    × (IsChanged entry expected → ⊥)
    × (is_alone site.upload ≡ true
        → after ≡ regular (record { content = content; modified = site.now }))
IsWritten site entry content overwrite expected (some e, after) =
    (is_early e ≡ true → after ≡ entry)
    × (e ≡ already_exists → IsFile entry × (overwrite ≡ false))
    × (e ≡ changed_on_disk → IsChanged entry expected)

-- without an error something holds of the entry, and an error is none that comes early
abbrev Leaves : (Entry → Type 0) → Entry → Option WriteError × Entry → Type 0
Leaves P entry (none, after) = P after
Leaves P entry (some e, after) = (is_early e ≡ true → after ≡ entry) × (is_conflict e ≡ false)

look_after-Leaves :
    (P : Entry → Type 0) (entry after : Entry) → P after → Leaves P entry (look_after after)
look_after-Leaves P entry absent h = (λ early. ground arith, refl)
look_after-Leaves P entry irregular h = h
look_after-Leaves P entry (regular file) h = h

outcome_of-Leaves :
    (P : Entry → Type 0) (run : Run) (entry : Entry) (code : ℕ) (after : Entry)
    → (code ≡ 0 → P after)
    → Leaves P entry (outcome_of run (code, after))
outcome_of-Leaves P run entry code after h = elim (Bool-cases (eqb code 0)) [
  | inl zero_code ↦ rw zero_code (look_after-Leaves P entry after (h (ground arith)))
  | inr other ↦ rw other (λ early. ground arith, refl)
]

-- alone with a free name or a file, the script that succeeds has put the text there
abbrev Put : Site → Text → Entry → Type 0
Put site content after =
    is_alone site.upload ≡ true
    → after ≡ regular (record { content = content; modified = site.now })

alone_none : (a b : Option Entry) → are_none a b ≡ true → (a ≡ none) × (b ≡ none)
alone_none none none h = (refl, refl)
alone_none none (some b) h = ground arith
alone_none (some a) none h = ground arith
alone_none (some a) (some b) h = ground arith

script-put :
    (run : Run) (content : Text) (now : ℕ) (entry : Entry)
    → run.meanwhile ≡ none
    → (entry ≡ absent) ⊎ IsFile entry
    → (place_script run content now entry).0 ≡ 0
    → (place_script run content now entry).1
      ≡ regular (record { content = content; modified = now })
unfolding place_script
script-put run content now absent undisturbed plain h = elim (Bool-cases run.mv_fails) [
  | inl fails ↦ ground arith
  | inr moves ↦ rw moves (rw undisturbed refl)
]
script-put run content now irregular undisturbed (inl same) h = ground arith
script-put run content now irregular undisturbed (inr file) h = elim file [ ]
script-put run content now (regular old) undisturbed plain h = elim (Option-cases run.cat_stops) [
  | inr (left, stops) ↦ ground arith
  | inl whole ↦ rw whole refl
]

ran-put :
    (run : Run) (content : Text) (now : ℕ) (entry : Entry)
    → (entry ≡ absent) ⊎ IsFile entry
    → is_alone (ran run) ≡ true
    → (place_script run content now (entry_met run.appeared entry)).0 ≡ 0
    → (place_script run content now (entry_met run.appeared entry)).1
      ≡ regular (record { content = content; modified = now })
ran-put run content now entry plain alone h =
    let (first, later) = alone_none run.appeared run.meanwhile alone in
    ap (λ o. (place_script run content now (entry_met o entry)).1) first
    ∙ script-put run content now entry later plain
        (ap (λ o. (place_script run content now (entry_met o entry)).0) (sym first) ∙ h)

Upload-cases :
    (u : Upload)
    → (u ≡ refused)
      ⊎ (((why : Text) × (u ≡ not_started why))
          ⊎ (((why : Text) × (left : Entry) × (u ≡ broke_off why left))
              ⊎ ((run : Run) × (u ≡ ran run))))
Upload-cases refused = inl refl
Upload-cases (not_started why) = inr (inl (why, refl))
Upload-cases (broke_off why left) = inr (inr (inl (why, left, refl)))
Upload-cases (ran run) = inr (inr (inr (run, refl)))

place-Leaves :
    (site : Site) (content : Text) (entry : Entry)
    → (entry ≡ absent) ⊎ IsFile entry
    → Leaves (Put site content) entry (place site content entry)
unfolding place
place-Leaves site content entry plain = elim (Upload-cases site.upload) [
  | inl at ↦ rw at (λ early. refl, refl)
  | inr (inl (why, at)) ↦ rw at (λ early. ground arith, refl)
  | inr (inr (inl (why, left, at))) ↦ rw at (λ early. ground arith, refl)
  | inr (inr (inr (run, at))) ↦
      let met : Entry = entry_met run.appeared entry in
      rw at (
        outcome_of-Leaves
          (λ after.
            is_alone (ran run) ≡ true
            → after ≡ regular (record { content = content; modified = site.now }))
          run entry (place_script run content site.now met).0
          (place_script run content site.now met).1
          (λ zero_code alone. ran-put run content site.now entry plain alone zero_code))
]

-- where the guards have let a write pass
placed-IsWritten :
    (site : Site) (entry : Entry) (content : Text) (overwrite : Bool) (expected : Option ℕ)
    → (site.is_name ≡ true) × (site.is_writable ≡ true) × (site.is_folder ≡ true)
    → (entry ≡ absent) ⊎ (IsFile entry × (overwrite ≡ true))
    → (IsChanged entry expected → ⊥)
    → (r : Option WriteError × Entry) → Leaves (Put site content) entry r
    → IsWritten site entry content overwrite expected r
placed-IsWritten site entry content overwrite expected (n, w, f) plain same (none, after) put =
    (n, w, f, plain, same, put)
placed-IsWritten site entry content overwrite expected guards plain same (some e, after)
      (early, other) =
    (early, λ clash. ground arith, λ clash. ground arith)

moved_on-IsChanged :
    (file : File) (expected : Option ℕ)
    → (moved_on expected file.modified ≡ true → IsChanged (regular file) expected)
      × (moved_on expected file.modified ≡ false → IsChanged (regular file) expected → ⊥)
moved_on-IsChanged file none = (λ h. ground arith, λ h no_time. no_time)
moved_on-IsChanged file (some opened) = (
  λ h. elim (Bool-cases (ltb (opened + 1) file.modified)) [
    | inl later ↦ inl (ground arith)
    | inr sooner ↦ inr (ground arith)
  ],
  λ h changed. elim changed [ inl later ↦ ground arith | inr sooner ↦ ground arith ],
)

entry-IsWritten :
    (site : Site) (entry : Entry) (content : Text) (overwrite : Bool) (expected : Option ℕ)
    → (site.is_name ≡ true) × (site.is_writable ≡ true) × (site.is_folder ≡ true)
    → IsWritten site entry content overwrite expected
        (write_entry site content overwrite expected entry)
unfolding write_entry
entry-IsWritten site absent content overwrite expected guards =
    placed-IsWritten site absent content overwrite expected guards (inl refl) (λ never. never)
      (place site content absent) (place-Leaves site content absent (inl refl))
entry-IsWritten site irregular content overwrite expected guards =
    (λ early. refl, λ clash. ground arith, λ clash. ground arith)
entry-IsWritten site (regular file) content overwrite expected guards =
    elim (Bool-cases overwrite) [
      | inr keep ↦ rw keep (λ early. refl, λ exists. (tt, refl), λ clash. ground arith)
      | inl replaced ↦ rw replaced (elim (Bool-cases (moved_on expected file.modified)) [
        | inl moved ↦
            rw moved (
              λ early. refl,
              λ clash. ground arith,
              λ e. (moved_on-IsChanged file expected).0 moved,
            )
        | inr same ↦ rw same (
            placed-IsWritten site (regular file) content true expected guards (inr (tt, refl))
              ((moved_on-IsChanged file expected).1 same) (place site content (regular file))
              (place-Leaves site content (regular file) (inr tt)))
      ])
    ]

-- of three guards the first that fails decides
first_refusal :
    (P : Option WriteError × Entry → Type 0) (b c d : Bool) (x y z w : Option WriteError × Entry)
    → P x
    → P y
    → P z
    → (b ≡ true → c ≡ true → d ≡ true → P w)
    → P (if not b then x else if not c then y else if not d then z else w)
first_refusal P false c d x y z w hx hy hz hw = hx
first_refusal P true false d x y z w hx hy hz hw = hy
first_refusal P true true false x y z w hx hy hz hw = hz
first_refusal P true true true x y z w hx hy hz hw = hw refl refl refl

-- Without an error the name, the policy and the folder allowed the write, no file was there or one that
-- may be overwritten and was not changed by more than a millisecond since it was opened, and, if nobody
-- else puts something at the name while the helper is at work, the whole text is there. A conflict tells
-- that a file is there that may not be overwritten, or was changed since. Conflicts, and every other
-- error but those of the helper's script and of looking at the file after it, leave the entry as it was.
pub write_file-IsWritten :
    (site : Site) (entry : Entry) (content : Text) (overwrite : Bool) (expected : Option ℕ)
    → IsWritten site entry content overwrite expected
        (write_file site entry content overwrite expected)
unfolding write_file
write_file-IsWritten site entry content overwrite expected =
    first_refusal (IsWritten site entry content overwrite expected) site.is_name site.is_writable
      site.is_folder (some no_name, entry) (some not_writable, entry) (some no_folder, entry)
      (write_entry site content overwrite expected entry)
      (λ early. refl, λ clash. ground arith, λ clash. ground arith)
      (λ early. refl, λ clash. ground arith, λ clash. ground arith)
      (λ early. refl, λ clash. ground arith, λ clash. ground arith)
      (λ named writable folder.
        entry-IsWritten site entry content overwrite expected (named, writable, folder))
