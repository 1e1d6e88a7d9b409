-- ===== src/Machine/Pages.antt =====
-- The DSS calls GETMEM, SETWIN1 to SETWIN3 and FREEMEM, and the BIOS call EMM_FN4. A refused call
-- throws in the source, so that an answer has no carry.
pub mod Free
use sprinter_3c509b.Base.{
  ℕ, zero, suc, ◌+◌, ◌*◌, ◌/◌, ◌%◌, not, Option, none, some, ◌∷◌, ltb, leb, if◌then◌else◌,
  or_nonzero,
}
use sprinter_3c509b.Machine.{
  Outcome, done, failed, isa_is_open, unallocated_page, image_window, unknown_block, Memory, Table,
  entry_at, has_entry, without_entry, Fill, blank, random, constant, Settings, Machine, allocated,
}

-- `fillState` after some more random bytes.
unfoldable pub fill_after : ℕ → ℕ → ℕ
fill_after zero state = state
fill_after (suc n) state = (fill_after n state * 25173 + 13849) % 65536

-- `freshPage`: what a page holds, and the state that it leaves behind.
unfoldable pub fresh_page : Fill → ℕ → Memory
fresh_page blank state = λ a. 0
fresh_page (constant b) state = λ a. b % 256
fresh_page random state = λ a. fill_after (a + 1) state / 256

abbrev pub fill_past : Fill → ℕ → ℕ → ℕ
fill_past random size state = fill_after size state
fill_past _ size state = state

-- `count` fresh pages from `first` on.
unfoldable pub add_pages : Fill → ℕ → ℕ → ℕ → Table Memory → Table Memory × ℕ
unfolding fill_after fresh_page
add_pages fill first zero state table = (table, state)
add_pages fill first (suc count) state table =
    add_pages fill (first + 1) count (fill_past fill 0x4000 state)
      ((first, fresh_page fill state) ∷ without_entry first table)

unfoldable pub remove_pages : ℕ → ℕ → Table Memory → Table Memory
remove_pages first zero table = table
remove_pages first (suc count) table = remove_pages (first + 1) count (without_entry first table)

-- A window whose page is gone maps the machine's own memory again.
abbrev pub kept : Table Memory → Option ℕ → Option ℕ
kept table none = none
kept table (some page) = if has_entry page table then some page else none

module _ {P : Type 0} (settings : Settings) where
  -- GETMEM of `b` pages, or of one: the first of them.
  unfoldable pub get_mem : ℕ → Machine P → ℕ × Machine P
  unfolding add_pages
  get_mem b m =
      let count = or_nonzero (some b) 1 in
      let filled = add_pages settings.fill m.next_block count m.fill_state m.pages in
      (
        m.next_block,
        record m {
          next_block = m.next_block + count;
          allocations = (m.next_block, count) ∷ without_entry m.next_block m.allocations;
          pages = filled.0;
          fill_state = filled.1;
        },
      )

  unfoldable pub set_win1 : ℕ → Machine P → Outcome (Machine P)
  set_win1 page m =
      if not (allocated m page)
      then failed unallocated_page
      else if ltb settings.load_address 0x8000
      then failed image_window
      else done (record m { page1 = page; win1 = some page })

  unfoldable pub set_win2 : ℕ → Machine P → Outcome (Machine P)
  set_win2 page m =
      if not (allocated m page)
      then failed unallocated_page
      else if leb 0x8000 settings.load_address
      then failed image_window
      else done (record m { page2 = page; win2 = some page })

module _ {P : Type 0} where
  unfoldable pub set_win3 : ℕ → Machine P → Outcome (Machine P)
  set_win3 page m =
      if not (allocated m page)
      then failed unallocated_page
      else if m.isa_open
      then failed isa_is_open
      else done (record m { page3 = page; win3 = some page })

  abbrev pub free_found : ℕ → Machine P → Option ℕ → Outcome (Machine P)
  free_found block m none = failed unknown_block
  free_found block m (some count) =
      let left = remove_pages block count m.pages in
      done (record m {
        pages = left;
        allocations = without_entry block m.allocations;
        win0 = kept left m.win0;
        win1 = kept left m.win1;
        win2 = kept left m.win2;
        win3 = kept left m.win3;
      })

  unfoldable pub free_mem : ℕ → Machine P → Outcome (Machine P)
  unfolding remove_pages
  free_mem block m = free_found block m (entry_at block m.allocations)

  -- EMM_FN4: the page of a block.
  unfoldable pub emm_page : ℕ → ℕ → Machine P → Outcome ℕ
  emm_page a b m = if not (allocated m (a + b)) then failed unallocated_page else done (a + b)
