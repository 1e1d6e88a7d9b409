-- ===== src/Machine/Session/Calls.antt =====
-- The calls of the operating system keep every window mapped.
use sprinter_3c509b.Base.{
  ℕ, zero, suc, ◌+◌, ◌%◌, Bool, true, false, not, ◌&&◌, ◌||◌, Option, none, some, ◌∷◌, ltb, leb,
  ◌==◌, if◌then◌else◌, if_both, if_cases, arith, ◌≡◌, refl, or_nonzero,
}
use sprinter_3c509b.Machine.{
  Memory, Table, entry_at, has_entry, without_entry, Settings, Machine, Fill,
}
use sprinter_3c509b.Machine.Pages.{
  add_pages, fresh_page, fill_past, remove_pages, get_mem, set_win1, set_win2, set_win3, free_found,
  free_mem, kept,
}
use sprinter_3c509b.Machine.Ports.{io_write, close_isa, mapped, is_left}
use sprinter_3c509b.Machine.Session.Blocks.{Covered-add, Covered-free}
use sprinter_3c509b.Machine.Session.Windows.{IsMapped, MemorySound, Safely, IsMapped-put}

-- A page that is mapped only if it is there.
IsMapped-if :
    (pages : Table Memory) (page : ℕ) (b : Bool)
    → has_entry page pages ≡ b
    → IsMapped pages (if b then some page else none)
IsMapped-if pages page true h = h
IsMapped-if pages page false h = tt

kept-IsMapped : (pages : Table Memory) (w : Option ℕ) → IsMapped pages (kept pages w)
kept-IsMapped pages none = tt
kept-IsMapped pages (some page) = IsMapped-if pages page (has_entry page pages) refl

-- Fresh pages leave the others where they are.
add_pages-IsMapped :
    (fill : Fill) (first count state : ℕ) (pages : Table Memory) (w : Option ℕ)
    → IsMapped pages w
    → IsMapped (add_pages fill first count state pages).0 w
unfolding add_pages
add_pages-IsMapped fill first zero state pages w h = h
add_pages-IsMapped fill first (suc count) state pages w h =
    let page = fresh_page fill state in
    add_pages-IsMapped fill (first + 1) count (fill_past fill 0x4000 state)
      ((first, page) ∷ without_entry first pages) w (IsMapped-put first page pages w h)

is_there : (b : Bool) → not b ≡ false → b ≡ true
is_there b h = ground arith

module _ {P : Type 0} where
  mapped-IsMapped : (m : Machine P) (value : ℕ) → IsMapped m.pages (mapped m value)
  mapped-IsMapped m value = IsMapped-if m.pages value (has_entry value m.pages) refl

  close_isa-Safely : (m : Machine P) → MemorySound m → Safely (λ r. r) (close_isa m)
  unfolding close_isa
  close_isa-Safely m w =
      if_both (Safely (λ r. r)) (m.isa_open && is_left m.card.word_read_high) tt (
        if_both (Safely (λ r. r)) (m.isa_open && is_left m.card.word_write_low) tt (record {
          first = w.first;
          second = w.second;
          third = w.third;
          fourth = w.fourth;
          covered = w.covered;
        }))

  pub io_write-Safely : (p v : ℕ) (m : Machine P) → MemorySound m → Safely (λ r. r) (io_write p v m)
  unfolding io_write
  io_write-Safely p v m w =
      let port = p % 65536 in
      let value = v % 256 in
      let low_port = port % 256 in
      let Ends = Safely {P = P} {A = Machine P} (λ r. r) in
      let new = mapped-IsMapped m value in
      if_both Ends (port == 0x1ffd)
        (if_both Ends (value == 0x11)
          (record {
            first = w.first;
            second = w.second;
            third = w.third;
            fourth = w.fourth;
            covered = w.covered;
          })
          (if_both Ends (value == 1) (close_isa-Safely m w) tt))
        (if_both Ends (low_port == 0x82)
          (record {
            first = new;
            second = w.second;
            third = w.third;
            fourth = w.fourth;
            covered = w.covered;
          })
          (if_both Ends (low_port == 0xa2)
            (record {
              first = w.first;
              second = new;
              third = w.third;
              fourth = w.fourth;
              covered = w.covered;
            })
            (if_both Ends (low_port == 0xc2)
              (record {
                first = w.first;
                second = w.second;
                third = new;
                fourth = w.fourth;
                covered = w.covered;
              })
              (if_both Ends (low_port == 0xe2)
                (record {
                  first = w.first;
                  second = w.second;
                  third = w.third;
                  fourth = new;
                  covered = w.covered;
                })
                (if_both Ends (port == 0x9fbd)
                  (if_both Ends (not m.system_isa || not (value == 0)) tt (record {
                    first = w.first;
                    second = w.second;
                    third = w.third;
                    fourth = w.fourth;
                    covered = w.covered;
                  }))
                  tt)))))

  pub get_mem-MemorySound :
      (settings : Settings) (b : ℕ) (m : Machine P)
      → MemorySound m
      → MemorySound (get_mem settings b m).1
  unfolding get_mem
  get_mem-MemorySound settings b m w =
      let more =
        add_pages-IsMapped settings.fill m.next_block (or_nonzero (some b) 1) m.fill_state
          m.pages in
      record {
        first = more m.win0 w.first;
        second = more m.win1 w.second;
        third = more m.win2 w.third;
        fourth = more m.win3 w.fourth;
        covered =
            Covered-add settings.fill (or_nonzero (some b) 1) m.fill_state m.pages m.allocations
              m.next_block w.covered;
      }

  free_found-Safely :
      (block : ℕ) (m : Machine P) (o : Option ℕ)
      → entry_at block m.allocations ≡ o
      → MemorySound m
      → Safely (λ r. r) (free_found block m o)
  free_found-Safely block m none held w = tt
  free_found-Safely block m (some count) held w =
      let left = remove_pages block count m.pages in
      record {
        first = kept-IsMapped left m.win0;
        second = kept-IsMapped left m.win1;
        third = kept-IsMapped left m.win2;
        fourth = kept-IsMapped left m.win3;
        covered = Covered-free block count m.pages m.allocations m.next_block held w.covered;
      }

  pub free_mem-Safely :
      (block : ℕ) (m : Machine P) → MemorySound m → Safely (λ r. r) (free_mem block m)
  unfolding free_mem
  free_mem-Safely block m w = free_found-Safely block m (entry_at block m.allocations) refl w

  pub set_win1-Safely :
      (settings : Settings) (page : ℕ) (m : Machine P)
      → MemorySound m
      → Safely (λ r. r) (set_win1 settings page m)
  unfolding set_win1
  set_win1-Safely settings page m w =
      if_cases (Safely {P = P} {A = Machine P} (λ r. r)) (not (has_entry page m.pages)) (λ _. tt)
        (λ there.
          if_both (Safely {P = P} {A = Machine P} (λ r. r)) (ltb settings.load_address 0x8000) tt
            (record {
              first = w.first;
              second = is_there (has_entry page m.pages) there;
              third = w.third;
              fourth = w.fourth;
              covered = w.covered;
            }))

  pub set_win2-Safely :
      (settings : Settings) (page : ℕ) (m : Machine P)
      → MemorySound m
      → Safely (λ r. r) (set_win2 settings page m)
  unfolding set_win2
  set_win2-Safely settings page m w =
      if_cases (Safely {P = P} {A = Machine P} (λ r. r)) (not (has_entry page m.pages)) (λ _. tt)
        (λ there.
          if_both (Safely {P = P} {A = Machine P} (λ r. r)) (leb 0x8000 settings.load_address) tt
            (record {
              first = w.first;
              second = w.second;
              third = is_there (has_entry page m.pages) there;
              fourth = w.fourth;
              covered = w.covered;
            }))

  pub set_win3-Safely :
      (page : ℕ) (m : Machine P) → MemorySound m → Safely (λ r. r) (set_win3 page m)
  unfolding set_win3
  set_win3-Safely page m w =
      if_cases (Safely {P = P} {A = Machine P} (λ r. r)) (not (has_entry page m.pages)) (λ _. tt)
        (λ there. if_both (Safely {P = P} {A = Machine P} (λ r. r)) (m.isa_open) tt (record {
          first = w.first;
          second = w.second;
          third = w.third;
          fourth = is_there (has_entry page m.pages) there;
          covered = w.covered;
        }))
