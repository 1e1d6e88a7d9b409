-- ===== src/Machine/Executable/Tests.antt =====
-- A library of 116 bytes: the jump table, six bytes of code behind the mark, the bitmap and an
-- overlay of two bytes.
use sprinter_3c509b.Base.{
  ℕ, ◌≡◌, refl, true, false, not, ◌&&◌, some, [], ◌∷◌, ◌++◌, replicate, leb, Bytes,
}
use sprinter_3c509b.Machine.Executable.Ranges.{AllInside, l1_executable_ranges-AllInside}
use sprinter_3c509b.Machine.Executable.Windows.{window_flag, is_mapped_executable-window}
use sprinter_3c509b.Machine.Executable.{
  Range, Executable, l1_executable_ranges, is_mapped_executable, mark_executable_read,
}
use sprinter_3c509b.Machine.Load.{start_machine}
use sprinter_3c509b.Machine.Memory.{window_at}
use sprinter_3c509b.Machine.Tests.{machine}
use sprinter_3c509b.Machine.{Machine, done}
use mathlib.Core.List.{List}

abbrev library : Bytes
library =
    (76 ∷ 49 ∷ 112 ∷ 0 ∷ 110 ∷ 0 ∷ [])
    ++ (replicate 98 0 ++ (0xa5 ∷ 1 ∷ 2 ∷ 3 ∷ 4 ∷ 5 ∷ 0 ∷ 0 ∷ 2 ∷ 0 ∷ 7 ∷ 8 ∷ []))

abbrev ranges : List Range
ranges = (32, 104) ∷ (105, 110) ∷ (114, 116) ∷ []

found_ranges : l1_executable_ranges [] library ≡ done ranges
unfolding l1_executable_ranges
found_ranges = refl

l1_executable_ranges-AllInside_example : AllInside library ranges
l1_executable_ranges-AllInside_example =
    l1_executable_ranges-AllInside [] library ranges found_ranges

-- The library is read to 0x4000, where the window maps page 5.
abbrev loaded : Machine ℕ
loaded = record machine { win1 = some 5 }

abbrev marked : Executable
marked =
    mark_executable_read loaded ranges 0 0x4000 116
      (record { flags = []; l1_pages = []; hits = 0; entry_calls = λ entry. 0 })

-- The address below the window is taken for one of it, but has no flag there.
is_mapped_executable-window_example :
    is_mapped_executable loaded 0x3fff marked
    ≡ not (leb 0xc000 0x3fff && loaded.isa_open)
      && window_flag marked 0x3fff (window_at loaded 0x3fff)
is_mapped_executable-window_example = is_mapped_executable-window loaded marked 0x3fff

code_is_executable : is_mapped_executable loaded 0x4069 marked ≡ true
unfolding is_mapped_executable mark_executable_read start_machine
code_is_executable = refl

bitmap_is_not : is_mapped_executable loaded 0x406e marked ≡ false
unfolding is_mapped_executable mark_executable_read start_machine
bitmap_is_not = refl
