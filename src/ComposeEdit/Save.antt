-- ===== src/ComposeEdit/Save.antt =====
-- compose_edit.py: `_write`, which hands the compose file to files.py's `write_file`, and why it is
-- the writer that `_apply` relies on.
use homelab_agent.Prelude.{ℕ, ◌≡◌, true, Option, none, some, [], arith, if◌then◌else◌}
use homelab_agent.Prelude.Text.{Text}
use homelab_agent.Files.Write.{
  File, Entry, absent, irregular, regular, Site, WriteError, write_file, is_conflict,
}
use homelab_agent.Files.Safety.{is_alone, IsWritten, write_file-IsWritten}
use homelab_agent.ComposeEdit.Apply.{Written, wrote, in_conflict, broke}
use homelab_agent.ComposeEdit.Settled.{IsWriter}

-- what `_apply` sees of a write; the entry stays a regular file
unfoldable pub seen_as : File → Option WriteError × Entry → Written
seen_as file (none, regular after) = wrote after
seen_as file (some e, regular after) =
    if is_conflict e then in_conflict [] after else broke [] after
seen_as file (_, absent) = broke [] file
seen_as file (_, irregular) = broke [] file

-- `_write`
unfoldable pub save : Site → File → Text → Option ℕ → Written
save site file content modified =
    seen_as file (write_file site (regular file) content true modified)

seen_as-whole :
    (site : Site) (file after : File) (content : Text) (modified : Option ℕ)
    (r : Option WriteError × Entry)
    → is_alone site.upload ≡ true
    → IsWritten site (regular file) content true modified r
    → seen_as file r ≡ wrote after
    → after.content ≡ content
unfolding seen_as
seen_as-whole site file after content modified (none, regular held) alone written h =
    let put : regular held ≡ regular (record { content = content; modified = site.now }) =
      written.5 alone in
    ground arith
seen_as-whole site file after content modified (none, absent) alone written h = ground arith
seen_as-whole site file after content modified (none, irregular) alone written h = ground arith
seen_as-whole site file after content modified (some e, regular held) alone written h = ground arith
seen_as-whole site file after content modified (some e, absent) alone written h = ground arith
seen_as-whole site file after content modified (some e, irregular) alone written h = ground arith

-- With `write_file` behind it, and nobody else at work in the folder, `_write` keeps what `_apply` relies
-- on.
pub save-IsWriter : (site : Site) → is_alone site.upload ≡ true → IsWriter (save site)
unfolding save
save-IsWriter site alone = record {
  whole = λ file after content modified h.
      seen_as-whole site file after content modified
        (write_file site (regular file) content true modified) alone
        (write_file-IsWritten site (regular file) content true modified) h;
}
