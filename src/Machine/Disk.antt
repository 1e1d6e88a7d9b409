-- ===== src/Machine/Disk.antt =====
-- The DSS calls on files: OPEN, CLOSE, READ, CREATE, DELETE, WRITE, MOVE_FP and the current
-- directory. A call takes the name or the bytes that the program has in memory, and returns those
-- that the harness puts there.
pub mod RoundTrip
use sprinter_3c509b.Base.{
  ℕ, zero, suc, ◌+◌, ◌-◌, ◌*◌, ◌%◌, Bool, true, false, not, ◌&&◌, ◌||◌, Option, none, some, List,
  [], ◌∷◌, ◌++◌, map, min, ltb, leb, ◌==◌, if◌then◌else◌, length, take, drop, slice, Bytes, byte_at,
  equal, pad_to,
}
use sprinter_3c509b.Machine.Console.{ConsoleSettings}
use sprinter_3c509b.Machine.{
  Outcome, done, failed, unknown_handle, bad_whence, Table, entry_at, has_entry, without_entry,
}
use sprinter_3c509b.Peer.Text.{upper}

pub record OpenFile : Type 0 where
  pub name : Bytes
  pub contents : Bytes
  pub offset : ℕ

pub record Disk : Type 0 where
  pub files : List (Bytes × Bytes)
  pub open_files : Table OpenFile
  pub next_handle : ℕ
  pub current_dir : Bytes
  pub read_calls : ℕ
  pub write_calls : ℕ
  pub close_calls : ℕ
  pub total_written : ℕ

-- The failures that a scenario asks for; `read_max` is 0 where it sets none.
pub record DiskSettings : Type 0 where
  pub open_error : Option ℕ
  pub create_error : Option ℕ
  pub close_fail_at : Option ℕ
  pub read_fail_at : Option ℕ
  pub write_fail_at : Option ℕ
  pub read_max : ℕ
  pub disk_full_after : Option ℕ
  pub seek_fail : Bool
  pub missing_dirs : List Bytes
  pub console : ConsoleSettings

-- An answer without carry, and one with carry and the error in A.
pub data Answer {ℓ} (A : Type ℓ) : Type ℓ where
  granted : A → Answer A
  refused : ℕ → Answer A

-- An answer that returns nothing.
abbrev pub Verdict : Type 0
Verdict = Answer {0} Unit

-- The call with this number is to fail; a limit is passed.
abbrev pub is_at : Option ℕ → ℕ → Bool
is_at none n = false
is_at (some k) n = k == n

abbrev pub is_past : Option ℕ → ℕ → Bool
is_past none n = false
is_past (some limit) n = ltb limit n

-- `name.replace(/\//g, '\\').toUpperCase()`
abbrev pub normal : Bytes → Bytes
normal name = upper (map (λ c. if c == 47 then 92 else c) name)

-- It starts with a drive or with a backslash.
abbrev pub is_rooted : Bytes → Bool
is_rooted name =
    leb 65 (byte_at name 0)
      && leb (byte_at name 0) 90
      && byte_at name 1 == 58
      && byte_at name 2 == 92
    || byte_at name 0 == 92

-- The directory with a backslash at its end.
abbrev pub with_slash : Bytes → Bytes
with_slash dir = if byte_at dir (length dir - 1) == 92 then dir else dir ++ (92 ∷ [])

abbrev pub canonical_name : Disk → Bytes → Bytes
canonical_name d name =
    let n = normal name in if is_rooted n then n else with_slash d.current_dir ++ n

abbrev pub file_at : Bytes → List (Bytes × Bytes) → Option Bytes
file_at name [] = none
file_at name ((key, contents) ∷ files) =
    if equal key name then some contents else file_at name files

abbrev pub has_file : Bytes → List (Bytes × Bytes) → Bool
has_file name [] = false
has_file name ((key, contents) ∷ files) = if equal key name then true else has_file name files

abbrev pub without_file : Bytes → List (Bytes × Bytes) → List (Bytes × Bytes)
without_file name [] = []
without_file name ((key, contents) ∷ files) =
    let rest = without_file name files in if equal key name then rest else (key, contents) ∷ rest

abbrev pub with_file : Bytes → Bytes → List (Bytes × Bytes) → List (Bytes × Bytes)
with_file name contents files = (name, contents) ∷ without_file name files

-- A file under a new handle, at its start.
abbrev pub with_handle : Bytes → Bytes → Disk → Answer ℕ × Disk
with_handle name contents d = (
  granted d.next_handle,
  record d {
    open_files =
        (d.next_handle, record { name = name; contents = contents; offset = 0 }) ∷ d.open_files;
    next_handle = d.next_handle + 1;
  },
)

abbrev pub store_open : ℕ → OpenFile → Disk → Disk
store_open handle f d = record d { open_files = (handle, f) ∷ without_entry handle d.open_files }

-- The contents of a file with bytes written at an offset; a gap is filled with zeros.
abbrev pub written : Bytes → ℕ → Bytes → Bytes
written bytes offset contents =
    take offset (pad_to offset contents) ++ (bytes ++ drop (offset + length bytes) contents)

module _ (o : DiskSettings) where
  abbrev pub open_found : ℕ → Bytes → Disk → Option Bytes → Answer ℕ × Disk
  open_found mode name d none = (refused 3, d)
  open_found mode name d (some contents) =
      if ltb 2 mode then (refused 3, d) else with_handle name contents d

  unfoldable pub open_file : ℕ → Bytes → Disk → Answer ℕ × Disk
  open_file mode text d =
      let name = canonical_name d text in
      elim o.open_error [
        | some error ↦ (refused error, d)
        | none ↦ open_found mode name d (file_at name d.files)
      ]

  unfoldable pub create_file : Bool → Bytes → Disk → Answer ℕ × Disk
  create_file only_new text d =
      let name = canonical_name d text in
      elim o.create_error [
        | some error ↦ (refused error, d)
        | none ↦
            if only_new && has_file name d.files
            then (refused 7, d)
            else with_handle name [] (record d { files = with_file name [] d.files })
      ]

  unfoldable pub delete_file : Bytes → Disk → Verdict × Disk
  delete_file text d =
      let name = canonical_name d text in
      if has_file name d.files
      then (granted tt, record d { files = without_file name d.files })
      else (refused 3, d)

  unfoldable pub close_file : ℕ → Disk → Outcome (Verdict × Disk)
  close_file handle before =
      let d = record before { close_calls = before.close_calls + 1 } in
      if is_at o.close_fail_at d.close_calls
      then done (refused 1, d)
      else if has_entry handle d.open_files
      then done (granted tt, record d { open_files = without_entry handle d.open_files })
      else failed unknown_handle

  -- READ: the bytes that go to the program's memory.
  abbrev pub read_found : ℕ → ℕ → Disk → Option OpenFile → Outcome (Answer Bytes × Disk)
  read_found handle count before none = failed unknown_handle
  read_found handle count before (some f) =
      let d = record before { read_calls = before.read_calls + 1 } in
      let requested = if o.read_max == 0 then count else min count o.read_max in
      let chunk = slice f.offset (f.offset + requested) f.contents in
      if is_at o.read_fail_at d.read_calls
      then done (refused 1, d)
      else done (granted chunk, store_open handle (record f { offset = f.offset + length chunk }) d)

  unfoldable pub read_file : ℕ → ℕ → Disk → Outcome (Answer Bytes × Disk)
  read_file handle count d = read_found handle count d (entry_at handle d.open_files)

  -- WRITE: of the bytes that the program's memory holds.
  abbrev pub write_found : ℕ → Bytes → Disk → Option OpenFile → Outcome (Verdict × Disk)
  write_found handle bytes before none = failed unknown_handle
  write_found handle bytes before (some f) =
      let d = record before { write_calls = before.write_calls + 1 } in
      let contents = written bytes f.offset f.contents in
      let end_of = f.offset + length bytes in
      if is_at o.write_fail_at d.write_calls
        || is_past o.disk_full_after (d.total_written + length bytes)
      then done (refused 1, d)
      else done (
        granted tt,
        store_open handle (record f { contents = contents; offset = end_of })
            (record d {
              files = with_file f.name contents d.files;
              total_written = d.total_written + length bytes;
            }),
      )

  unfoldable pub write_file : ℕ → Bytes → Disk → Outcome (Verdict × Disk)
  write_file handle bytes d = write_found handle bytes d (entry_at handle d.open_files)

  -- MOVE_FP to a place `raw` from `base`, where `raw` counts down from 2 ^ 32 if it is negative.
  abbrev pub moved : ℕ → ℕ → OpenFile → Disk → ℕ → Answer ℕ × Disk
  moved raw handle f d base =
      let place = if ltb 0x7fffffff raw then base + raw - 0x100000000 else base + raw in
      let before = ltb 0x7fffffff raw && ltb (base + raw) 0x100000000 in
      if o.seek_fail || before || ltb 0xffffffff place
      then (refused 1, d)
      else (granted place, store_open handle (record f { offset = place }) d)

  abbrev pub move_found : ℕ → ℕ → ℕ → Disk → Option OpenFile → Outcome (Answer ℕ × Disk)
  move_found whence raw handle d none = failed unknown_handle
  move_found whence raw handle d (some f) =
      if whence == 0
      then done (moved raw handle f d 0)
      else if whence == 1
      then done (moved raw handle f d f.offset)
      else if whence == 2
      then done (moved raw handle f d (length f.contents))
      else failed bad_whence

  unfoldable pub move_pointer : ℕ → ℕ → ℕ → Disk → Outcome (Answer ℕ × Disk)
  move_pointer whence raw handle d = move_found whence raw handle d (entry_at handle d.open_files)

  abbrev pub is_missing : Bytes → List Bytes → Bool
  is_missing dir [] = false
  is_missing dir (name ∷ names) = equal (upper name) dir || is_missing dir names

  unfoldable pub change_dir : Bytes → Disk → Verdict × Disk
  change_dir text d =
      if is_missing (normal text) o.missing_dirs
      then (refused 3, d)
      else (granted tt, record d { current_dir = canonical_name d text })
