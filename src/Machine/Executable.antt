-- ===== src/Machine/Executable.antt =====
-- The record of executable pages, which `strictPc` reads: the ranges of an L1 library, where they
-- come to lie in the pages, and the check of the program counter.
pub mod Ranges
pub mod Windows
mod Tests
use sprinter_3c509b.Base.{
  ℕ, zero, suc, ◌+◌, ◌-◌, ◌*◌, ◌/◌, ◌%◌, ◌^◌, Bool, true, false, not, ◌&&◌, ◌||◌, Option, none,
  some, List, [], ◌∷◌, ◌++◌, min, max, bit_and, ltb, leb, ◌==◌, if◌then◌else◌, length, take, drop,
  Bytes, byte_at, equal,
}
use sprinter_3c509b.Machine.Load.{u16, ascii}
use sprinter_3c509b.Machine.Memory.{with_member}
use sprinter_3c509b.Machine.{
  Outcome, done, failed, bad_l1_fields, no_l1_boundary, bad_l1_overlay, pc_escaped, Memory, Table,
  entry_at, without_entry, Machine,
}
use sprinter_3c509b.Peer.Tcp.Drain.{includes}
use sprinter_3c509b.Peer.Text.{codes}

-- A range of a file, up to its end, which it does not hold.
abbrev pub Range : Type 0
Range = ℕ × ℕ

-- `executablePages`, `l1Pages`, `mappedExecutableHits` and `dllEntryCalls`.
pub record Executable : Type 0 where
  pub flags : Table (ℕ → Bool)
  pub l1_pages : List ℕ
  pub hits : ℕ
  pub entry_calls : Memory

abbrev pub is_l1 : Bytes → Bool
is_l1 data_bytes = leb 32 (length data_bytes) && equal (ascii (take 2 data_bytes)) (codes "L1")

-- The first byte from `at` on that is not 0, or `limit`; `limit` rounds are enough.
abbrev pub skip_zeros : ℕ → Bytes → ℕ → ℕ → ℕ
skip_zeros zero file limit at = at
skip_zeros (suc fuel) file limit at =
    let behind = skip_zeros fuel file limit (at + 1) in
    if ltb at limit && byte_at file at == 0 then behind else at

abbrev pub ends_with : Bytes → Bytes → Bool
ends_with name suffix = equal (drop (length name - length suffix) name) suffix

-- The jump table of 24 entries lies behind the header of 32 bytes.
abbrev pub jump_end : ℕ
jump_end = 32 + 24 * 3

abbrev pub code_start : Bytes → ℕ
code_start file = skip_zeros (u16 file 4) file (u16 file 4) jump_end

-- The code of the file, and the overlay behind it, if there is one.
unfoldable pub with_overlay : Bytes → List Range → Outcome (List Range)
with_overlay file code =
    let size = u16 file 2 in
    let cold = u16 file size in
    if not (leb (size + 2) (length file))
    then done code
    else if ltb (length file) (size + 2 + cold)
    then failed bad_l1_overlay
    else if cold == 0
    then done code
    else done (code ++ ((size + 2, size + 2 + cold) ∷ []))

unfoldable pub l1_executable_ranges : Bytes → Bytes → Outcome (List Range)
unfolding with_overlay
l1_executable_ranges name file =
    let size = u16 file 2 in
    let reloc = u16 file 4 in
    let start = code_start file in
    if not (is_l1 file)
    then done []
    else if ltb (length file) size || ltb reloc jump_end || ltb size reloc
    then failed bad_l1_fields
    else if leb reloc start || not (byte_at file start == 0xa5)
    then if ends_with name (codes "UNET509B.DLL")
      then failed no_l1_boundary
      else done ((32, reloc) ∷ [])
    else with_overlay file ((32, jump_end) ∷ (start + 1, reloc) ∷ [])

-- A flag of a page, which has none outside its 16K.
abbrev pub flag_of : Option (ℕ → Bool) → ℕ → Bool
flag_of none offset = false
flag_of (some flags) offset = flags offset

abbrev pub raised : Option (ℕ → Bool) → ℕ → ℕ → Bool
raised flags offset at = if at == offset then true else flag_of flags at

abbrev pub raise : ℕ → ℕ → Executable → Executable
raise page offset x = record x {
  flags = (page, raised (entry_at page x.flags) offset) ∷ without_entry page x.flags;
}

-- `executable[address - base] = 1`, which an address below the base leaves without effect.
abbrev pub raise_at : ℕ → Executable → Option (ℕ × ℕ) → Executable
raise_at address x none = x
raise_at address x (some (page, base)) =
    if ltb address base then x else raise page (address - base) x

abbrev pub flag_at : ℕ → Executable → Option (ℕ × ℕ) → Bool
flag_at address x none = false
flag_at address x (some (page, base)) =
    not (ltb address base) && flag_of (entry_at page x.flags) (address - base)

-- The page of a window, and the base that the window is taken to have.
abbrev pub or_next : Bool → ℕ → Option ℕ → Option (ℕ × ℕ) → Option (ℕ × ℕ)
or_next asked base none next = next
or_next asked base (some page) next = if asked then some (page, base) else next

module _ {P : Type 0} (m : Machine P) where
  -- The windows are tried in turn, each by its upper end alone.
  unfoldable pub mapped_address : ℕ → Option (ℕ × ℕ)
  mapped_address address = or_next (ltb address 0x4000) 0 m.win0 (
      or_next (ltb address 0x8000) 0x4000 m.win1
        (or_next (ltb address 0xc000) 0x8000 m.win2 (or_next (not m.isa_open) 0xc000 m.win3 none)))

  unfoldable pub is_mapped_executable : ℕ → Executable → Bool
  unfolding mapped_address
  is_mapped_executable a x = let address = a % 65536 in flag_at address x (mapped_address address)

  -- So many bytes from an address on are code.
  unfoldable pub mark_from : ℕ → ℕ → Executable → Executable
  unfolding mapped_address
  mark_from zero a x = x
  mark_from (suc count) a x =
      let address = a % 65536 in
      mark_from count (a + 1) (raise_at address x (mapped_address address))

  -- What READ puts at `destination` is code where it comes from a range of the file.
  unfoldable pub mark_executable_read : List Range → ℕ → ℕ → ℕ → Executable → Executable
  unfolding mark_from
  mark_executable_read [] source destination count x = x
  mark_executable_read ((start, end) ∷ ranges) source destination count x =
      let first = max source start in
      let last = min (source + count) end in
      mark_executable_read ranges source destination count
        (mark_from (last - first) (destination + (first - source)) x)

  -- `strictPc`, for a program that is loaded at `load` with so many bytes: a jump into the table of
  -- a library is counted.
  abbrev pub count_entry : ℕ → Executable → Option (ℕ × ℕ) → Executable
  count_entry pc x none = x
  count_entry pc x (some (page, base)) =
      let offset = pc - (base + 32) in
      if includes x.l1_pages page && leb (base + 32) pc && ltb offset 72 && offset % 3 == 0
      then record x {
        entry_calls =
            λ entry. if entry == offset / 3 then x.entry_calls entry + 1 else x.entry_calls entry;
      }
      else x

  unfoldable pub check_pc : ℕ → ℕ → ℕ → Executable → Outcome Executable
  unfolding is_mapped_executable
  check_pc load size pc x =
      let in_exe = leb load pc && ltb pc (load + size) in
      let in_code = is_mapped_executable pc x in
      let counted = count_entry pc (record x { hits = x.hits + 1 }) (mapped_address (pc % 65536)) in
      if not (pc == 8) && not (pc == 0x10) && not in_exe && not in_code
      then failed pc_escaped
      else done (if in_code then counted else x)

-- Whether a page holds the image of a library, relocated to a window, from byte `i` of the image on.
abbrev pub image_byte : Bytes → ℕ → ℕ → ℕ
image_byte file base i =
    let moved = bit_and (byte_at file (u16 file 4 + i / 8)) (0x80 / 2 ^ (i % 8)) in
    (byte_at file (32 + i) + (if moved == 0 then 0 else base / 256)) % 256

unfoldable pub holds_image : ℕ → ℕ → Bytes → ℕ → Memory → Bool
holds_image zero i file base content = true
holds_image (suc count) i file base content =
    content (32 + i) == image_byte file base i && holds_image count (i + 1) file base content

-- The offsets of a range within the image are code.
unfoldable pub raise_from : ℕ → ℕ → ℕ → Executable → Executable
raise_from page zero offset x = x
raise_from page (suc count) offset x = raise_from page count (offset + 1) (raise page offset x)

abbrev pub raise_ranges : ℕ → ℕ → List Range → Executable → Executable
raise_ranges page reloc [] x = x
raise_ranges page reloc ((first, last) ∷ ranges) x =
    raise_ranges page reloc ranges
      (raise_from page (min last reloc - max first 32) (max first 32) x)

-- `recognizeL1Page`, with the L1 files and their ranges, for what the page holds.
abbrev pub recognized : ℕ → ℕ → List (List Range × Bytes) → Memory → Executable → Executable
recognized page base [] content x = x
recognized page base ((ranges, file) ∷ files) content x =
    let reloc = u16 file 4 in
    let marked = raise_ranges page reloc ranges x in
    let next = recognized page base files content x in
    if ltb 32 reloc && leb reloc 0x4000 && holds_image (reloc - 32) 0 file base content
    then record marked { l1_pages = with_member page marked.l1_pages }
    else next

unfoldable pub recognize_l1_page :
    ℕ → ℕ → List (List Range × Bytes) → Option Memory → Executable → Executable
unfolding holds_image raise_from
recognize_l1_page page base files none x = x
recognize_l1_page page base files (some content) x = recognized page base files content x
