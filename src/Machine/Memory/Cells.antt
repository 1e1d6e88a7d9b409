-- ===== src/Machine/Memory/Cells.antt =====
-- Memory as the program sees it: cells that hold bytes.
use sprinter_3c509b.Base.{
  ℕ, ◌%◌, Bool, true, false, ◌&&◌, Option, none, some, ◌∷◌, leb, ◌==◌, if◌then◌else◌, if_false,
  if_true, ◌≡◌, refl, sym, ap, ◌∙◌, arith, Bool-cases, inl, inr, ==_iff,
}
use sprinter_3c509b.Card.{Peers}
use sprinter_3c509b.Machine.{done, Memory, put, Table, entry_at, without_entry, Settings, Machine}
use sprinter_3c509b.Machine.Memory.{
  rd, wr, read_at, write_at, page_byte, page_put, window_at, counted,
}
use sprinter_3c509b.Machine.Session.Tables.{has_entry-found, entry_at-without}
use sprinter_3c509b.Machine.Session.Windows.{IsMapped, MemorySound, window_at-IsMapped}

-- A byte of the machine's own memory, or of a page.
pub data Cell : Type 0 where
  in_ram : ℕ → Cell
  in_page : ℕ → ℕ → Cell

abbrev pub cell_in : ℕ → Option ℕ → Cell
cell_in address none = in_ram address
cell_in address (some id) = in_page id (address % 0x4000)

abbrev pub same_cell : Cell → Cell → Bool
same_cell (in_ram x) (in_ram y) = x == y
same_cell (in_page j x) (in_page k y) = k == j && x == y
same_cell _ _ = false

abbrev pub byte_of : ℕ → Option Memory → Option ℕ
byte_of x none = none
byte_of x (some page) = some (page x)

some_if : (b : Bool) (v w : ℕ) → some (if b then v else w) ≡ (if b then some v else some w)
some_if true v w = refl
some_if false v w = refl

and_false : (a b : Bool) → a ≡ false → (a && b) ≡ false
and_false a b h = ground arith

-- What a write leaves in a page, of the same number or another.
page_written :
    (id at v k x : ℕ) (page : Memory) (pages : Table Memory)
    → entry_at id pages ≡ some page
    → byte_of x (entry_at k ((id, put at v page) ∷ without_entry id pages))
      ≡ (if id == k && x == at then some v else byte_of x (entry_at k pages))
page_written id at v k x page pages e = elim (Bool-cases (id == k)) [
  | inl same ↦
      let here : entry_at k pages ≡ some page =
        ap (λ j. entry_at j pages) (sym ((==_iff id k).0 same)) ∙ e in
      ap (byte_of x) (if_true (id == k) _ (entry_at k (without_entry id pages)) same)
      ∙ (some_if (x == at) v (page x)
          ∙ sym (
              ap (λ b. if b && x == at then some v else byte_of x (entry_at k pages)) same
              ∙ ap (λ o. if x == at then some v else byte_of x o) here))
  | inr other ↦
      ap (byte_of x) (if_false (id == k) _ _ other ∙ entry_at-without k id pages other)
      ∙ sym (if_false (id == k && x == at) _ _ (and_false (id == k) (x == at) other))
]

module _ {P : Type 0} where
  -- The cell of an address below 65536, and what a cell holds.
  abbrev pub cell_of : Machine P → ℕ → Cell
  cell_of m address = cell_in address (window_at m address)

  abbrev pub content : Machine P → Cell → Option ℕ
  content m (in_ram x) = some (m.ram x)
  content m (in_page id x) = byte_of x (entry_at id m.pages)

  read_cell :
      (m : Machine P) (address : ℕ) (o : Option ℕ)
      → IsMapped m.pages o
      → (x : ℕ) × (read_at address m o ≡ done (x, m)) × (content m (cell_in address o) ≡ some x)
  read_cell m address none h = (m.ram address, refl, refl)
  read_cell m address (some id) h =
      let (page, e) = has_entry-found id m.pages h in
      (
        page (address % 0x4000),
        ap (page_byte (address % 0x4000) m) e,
        ap (byte_of (address % 0x4000)) e,
      )

  ram_written :
      (m : Machine P) (address v : ℕ) (c : Cell)
      → content (record m { ram = put address v m.ram }) c
        ≡ (if same_cell c (in_ram address) then some v else content m c)
  ram_written m address v (in_ram x) = some_if (x == address) v (m.ram x)
  ram_written m address v (in_page id x) = refl

  in_page_written :
      (m : Machine P) (id at v : ℕ) (page : Memory)
      → entry_at id m.pages ≡ some page
      → (c : Cell)
      → content (record m { pages = (id, put at v page) ∷ without_entry id m.pages }) c
        ≡ (if same_cell c (in_page id at) then some v else content m c)
  in_page_written m id at v page e (in_ram x) = refl
  in_page_written m id at v page e (in_page k x) = page_written id at v k x page m.pages e

  write_cell :
      (m : Machine P) (address v : ℕ) (o : Option ℕ)
      → IsMapped m.pages o
      → (n : Machine P) × (write_at address v m o ≡ done n)
        × ((b : ℕ) → window_at n b ≡ window_at m b)
        × ((c : Cell)
            → content n c ≡ (if same_cell c (cell_in address o) then some v else content m c))
  write_cell m address v none h =
      (record m { ram = put address v m.ram }, refl, λ b. refl, ram_written m address v)
  write_cell m address v (some id) h =
      let at = address % 0x4000 in
      let (page, e) = has_entry-found id m.pages h in
      (
        record m { pages = (id, put at v page) ∷ without_entry id m.pages },
        ap (page_put id at v m) e,
        λ b. refl,
        in_page_written m id at v page e,
      )

module _ {P : Type 0} (settings : Settings) (peers : Peers P) where
  -- Outside the open ISA window, a read returns what the cell of its address holds, and a write puts
  -- its byte into that cell and no other: no address moves to another cell. The windows map pages
  -- that are there.
  pub wr-rd_cells :
      (a v : ℕ) (m : Machine P)
      → MemorySound m
      → (leb 0xc000 (a % 65536) && m.isa_open) ≡ false
      → ((x : ℕ) × (rd settings a m ≡ done (x, counted m))
          × (content m (cell_of m (a % 65536)) ≡ some x))
        × ((n : Machine P) × (wr settings peers a v m ≡ done n)
            × ((b : ℕ) → cell_of n b ≡ cell_of m b)
            × ((c : Cell)
                → content n c
                  ≡ (if same_cell c (cell_of m (a % 65536)) then some (v % 256) else content m c)))
  unfolding rd wr
  wr-rd_cells a v m w outside =
      let address = a % 65536 in
      let o = window_at m address in
      let there = window_at-IsMapped m address w in
      let (x, read, holds) = read_cell (counted m) address o there in
      let (n, write, windows, holds_after) = write_cell (counted m) address (v % 256) o there in
      (
        (x, if_false _ _ _ outside ∙ read, holds),
        (n, if_false _ _ _ outside ∙ write, λ b. ap (cell_in b) (windows b), holds_after),
      )
