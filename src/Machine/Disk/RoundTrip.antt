-- ===== src/Machine/Disk/RoundTrip.antt =====
-- What is written to a file is read back from it.
use sprinter_3c509b.Base.{
  ℕ, ◌+◌, ◌-◌, Bool, false, ◌&&◌, ◌||◌, some, ◌++◌, min, ltb, ◌==◌, if◌then◌else◌, if_false,
  if_true, length, take, drop, slice, Bytes, pad_to, replicate, ◌≡◌, refl, ap, ◌∙◌, ◌≤◌, ◌⊎◌, arith,
  length-append, length-take, length-replicate, drop-append_length, take-append_length, eq→==,
}
use sprinter_3c509b.Machine.{done, entry_at, without_entry}
use sprinter_3c509b.Machine.Disk.{
  OpenFile, Disk, DiskSettings, granted, is_at, is_past, with_file, store_open, written, read_found,
  write_found, move_found, read_file, write_file, move_pointer,
}

length-pad_to : (n : ℕ) (xs : Bytes) → n ≤ length (pad_to n xs)
length-pad_to n xs = omega (
  arith,
  length-append xs (replicate (n - length xs) 0),
  length-replicate {0} {A = ℕ} (n - length xs) 0,
)

-- The bytes at the offset are those that were written there.
pub slice-written :
    (bytes : Bytes) (offset : ℕ) (contents : Bytes)
    → slice offset (offset + length bytes) (written bytes offset contents) ≡ bytes
slice-written bytes offset contents =
    let before = take offset (pad_to offset contents) in
    let long : length before ≡ offset =
      omega
        (arith, length-take {0} offset (pad_to offset contents), length-pad_to offset contents) in
    let behind = drop (offset + length bytes) contents in
    ap (take (offset + length bytes - offset))
      (drop-append_length offset before (bytes ++ behind) long)
    ∙ take-append_length (offset + length bytes - offset) bytes behind (omega arith)

asked :
    (count most : ℕ)
    → (most ≡ 0) ⊎ (count ≤ most)
    → (if most == 0 then count else min count most) ≡ count
asked count most h = ground arith

goes_to :
    (place : ℕ)
    → place ≤ 0x7fffffff
    → (if ltb 0x7fffffff place then 0 + place - 0x100000000 else 0 + place) ≡ place
goes_to place small = ground arith

goes_ahead :
    (fails : Bool) (place : ℕ)
    → fails ≡ false
    → place ≤ 0x7fffffff
    → (fails
        || (ltb 0x7fffffff place && ltb (0 + place) 0x100000000)
        || ltb 0xffffffff (if ltb 0x7fffffff place then 0 + place - 0x100000000 else 0 + place))
      ≡ false
goes_ahead fails place fine small = ground arith

module _ (o : DiskSettings) (handle : ℕ) where
  -- The three calls, on an open file, where they do not fail.
  write_granted :
      (bytes : Bytes) (f : OpenFile) (d : Disk)
      → entry_at handle d.open_files ≡ some f
      → (is_at o.write_fail_at (d.write_calls + 1)
          || is_past o.disk_full_after (d.total_written + length bytes))
        ≡ false
      → write_file o handle bytes d
        ≡ done (
          granted tt,
          store_open handle
              (record f {
                contents = written bytes f.offset f.contents;
                offset = f.offset + length bytes;
              })
              (record d {
                write_calls = d.write_calls + 1;
                files = with_file f.name (written bytes f.offset f.contents) d.files;
                total_written = d.total_written + length bytes;
              }),
        )
  unfolding write_file
  write_granted bytes f d held fine = ap (write_found o handle bytes d) held ∙ if_false _ _ _ fine

  move_granted :
      (place : ℕ) (f : OpenFile) (d : Disk)
      → entry_at handle d.open_files ≡ some f
      → o.seek_fail ≡ false
      → place ≤ 0x7fffffff
      → move_pointer o 0 place handle d
        ≡ done (granted place, store_open handle (record f { offset = place }) d)
  unfolding move_pointer
  move_granted place f d held fine small =
      ap (move_found o 0 place handle d) held
      ∙ ap done (
          if_false _ _ _ (goes_ahead o.seek_fail place fine small)
          ∙ ap (λ n. (granted n, store_open handle (record f { offset = n }) d))
              (goes_to place small))

  read_granted :
      (count : ℕ) (f : OpenFile) (d : Disk)
      → entry_at handle d.open_files ≡ some f
      → is_at o.read_fail_at (d.read_calls + 1) ≡ false
      → (o.read_max ≡ 0) ⊎ (count ≤ o.read_max)
      → read_file o handle count d
        ≡ done (
          granted (slice f.offset (f.offset + count) f.contents),
          store_open handle
              (record f {
                offset = f.offset + length (slice f.offset (f.offset + count) f.contents);
              })
              (record d { read_calls = d.read_calls + 1 }),
        )
  unfolding read_file
  read_granted count f d held fine whole =
      ap (read_found o handle count d) held
      ∙ (if_false _ _ _ fine
          ∙ ap
              (λ n. done (
                granted (slice f.offset (f.offset + n) f.contents),
                store_open handle
                    (record f {
                      offset = f.offset + length (slice f.offset (f.offset + n) f.contents);
                    })
                    (record d { read_calls = d.read_calls + 1 }),
              ))
              (asked count o.read_max whole))

  held_after :
      (f : OpenFile) (d : Disk) → entry_at handle (store_open handle f d).open_files ≡ some f
  held_after f d =
      if_true (handle == handle) (some f) (entry_at handle (without_entry handle d.open_files))
        (eq→== handle handle refl)

  -- What WRITE puts into an open file, READ returns, once MOVE_FP has gone back to where it was
  -- written. The scenario makes none of the three calls fail, READ asks for no more than it returns
  -- at once, and the place is below 2^31.
  pub write_file-read_file :
      (bytes : Bytes) (f : OpenFile) (d : Disk)
      → entry_at handle d.open_files ≡ some f
      → (is_at o.write_fail_at (d.write_calls + 1)
          || is_past o.disk_full_after (d.total_written + length bytes))
        ≡ false
      → is_at o.read_fail_at (d.read_calls + 1) ≡ false
      → o.seek_fail ≡ false
      → (o.read_max ≡ 0) ⊎ (length bytes ≤ o.read_max)
      → f.offset ≤ 0x7fffffff
      → (w p r : Disk) × (write_file o handle bytes d ≡ done (granted tt, w))
        × (move_pointer o 0 f.offset handle w ≡ done (granted f.offset, p))
        × (read_file o handle (length bytes) p ≡ done (granted bytes, r))
  write_file-read_file bytes f d held fine fine_read fine_seek whole small =
      let data_now = written bytes f.offset f.contents in
      let f1 : OpenFile = record f { contents = data_now; offset = f.offset + length bytes } in
      let d1 : Disk = record d {
        write_calls = d.write_calls + 1;
        files = with_file f.name data_now d.files;
        total_written = d.total_written + length bytes;
      } in
      let f2 : OpenFile = record f1 { offset = f.offset } in
      let w = store_open handle f1 d1 in
      let p = store_open handle f2 w in
      let chunk = slice f.offset (f.offset + length bytes) data_now in
      let d2 : Disk = record p { read_calls = d.read_calls + 1 } in
      let back = slice-written bytes f.offset f.contents in
      (
        w,
        p,
        store_open handle (record f2 { offset = f.offset + length chunk }) d2,
        write_granted bytes f d held fine,
        move_granted f.offset f1 w (held_after f1 d1) fine_seek small,
        read_granted (length bytes) f2 p (held_after f2 w) fine_read whole
            ∙ ap
                (λ c. done (
                  granted c,
                  store_open handle (record f2 { offset = f.offset + length chunk }) d2,
                ))
                back,
      )
