-- ===== src/Machine/Session/Windows.antt =====
-- Every window maps a page that is allocated, whatever the program does.
use sprinter_3c509b.Base.{
  ℕ, ◌+◌, ◌-◌, ◌%◌, true, not, ◌&&◌, Option, none, some, List, ◌∷◌, ltb, leb, ◌==◌, if_both, ◌≡◌,
  sym, Result, ok, err,
}
use mathlib.Core.Path.{subst}
use sprinter_3c509b.Card.{Card, Peers}
use sprinter_3c509b.Card.Bus.{read_byte, write_byte}
use sprinter_3c509b.Card.Id.{id_read, id_write}
use sprinter_3c509b.Machine.{
  Failure, missing_page, Outcome, done, failed, then_do, on_card, Memory, Table, has_entry,
  without_entry, put, Settings, Machine,
}
use sprinter_3c509b.Machine.Memory.{
  rd, wr, read_isa, write_isa, read_at, write_at, page_byte, page_put, window_at, note_probe,
  counted, is_in_slot, is_card_port, id_port,
}
use sprinter_3c509b.Machine.Session.Blocks.{Covered, Covered-put}
use sprinter_3c509b.Machine.Session.Tables.{has_entry-found, has_entry-put}

abbrev pub IsMapped : Table Memory → Option ℕ → Type 0
IsMapped pages none = Unit
IsMapped pages (some page) = has_entry page pages ≡ true

pub record MemorySound {P : Type 0} (m : Machine P) : Type 0 where
  pub first : IsMapped m.pages m.win0
  pub second : IsMapped m.pages m.win1
  pub third : IsMapped m.pages m.win2
  pub fourth : IsMapped m.pages m.win3
  pub covered : Covered m.pages m.allocations m.next_block

-- The failures that the source throws by itself.
abbrev pub IsThrown : Failure → Type 0
IsThrown missing_page = ⊥
IsThrown _ = Unit

-- A call that ends with its windows mapped, or throws by itself.
abbrev pub Safely : {P A : Type 0} → (A → Machine P) → Outcome A → Type 0
Safely of (done a) = MemorySound (of a)
Safely of (failed why) = IsThrown why

pub IsMapped-put :
    (id : ℕ) (page : Memory) (pages : Table Memory) (w : Option ℕ)
    → IsMapped pages w
    → IsMapped ((id, page) ∷ without_entry id pages) w
IsMapped-put id page pages none h = tt
IsMapped-put id page pages (some k) h = has_entry-put k id page pages h

module _ {P : Type 0} where
  pub then_do-Safely :
      {A B : Type 0} (of : A → Machine P) (to : B → Machine P) (x : Outcome A) (f : A → Outcome B)
      → Safely of x
      → ((a : A) → MemorySound (of a) → Safely to (f a))
      → Safely to (then_do x f)
  then_do-Safely of to (done a) f h next = next a h
  then_do-Safely of to (failed why) f h next = h

  pub on_card-Safely :
      {A B : Type 0} (to : B → Machine P) (x : Result A) (f : A → B)
      → ((a : A) → MemorySound (to (f a)))
      → Safely to (on_card x f)
  on_card-Safely to (ok a) f h = h a
  on_card-Safely to (err fault) f h = tt

  pub window_at-IsMapped :
      (m : Machine P) (address : ℕ) → MemorySound m → IsMapped m.pages (window_at m address)
  window_at-IsMapped m address w = if_both (IsMapped m.pages) (ltb address 0x4000) w.first (
      if_both (IsMapped m.pages) (ltb address 0x8000) w.second
        (if_both (IsMapped m.pages) (ltb address 0xc000) w.third w.fourth))

  read_at-Safely :
      (m : Machine P) (address : ℕ) (o : Option ℕ)
      → MemorySound m
      → IsMapped m.pages o
      → Safely (λ r. r.1) (read_at address m o)
  read_at-Safely m address none w h = w
  read_at-Safely m address (some id) w h =
      let (page, e) = has_entry-found id m.pages h in
      subst (λ found. Safely (λ r. r.1) (page_byte (address % 0x4000) m found)) (sym e) w

  write_at-Safely :
      (m : Machine P) (address v : ℕ) (o : Option ℕ)
      → MemorySound m
      → IsMapped m.pages o
      → Safely (λ r. r) (write_at address v m o)
  write_at-Safely m address v none w h = record {
    first = w.first;
    second = w.second;
    third = w.third;
    fourth = w.fourth;
    covered = w.covered;
  }
  write_at-Safely m address v (some id) w h =
      let (page, e) = has_entry-found id m.pages h in
      let new = put (address % 0x4000) v page in
      subst (λ found. Safely (λ r. r) (page_put id (address % 0x4000) v m found)) (sym e)
        (record {
          first = IsMapped-put id new m.pages m.win0 w.first;
          second = IsMapped-put id new m.pages m.win1 w.second;
          third = IsMapped-put id new m.pages m.win2 w.third;
          fourth = IsMapped-put id new m.pages m.win3 w.fourth;
          covered = Covered-put id new m.pages m.allocations m.next_block h w.covered;
        })

  -- A machine with the same pages in the same windows.
  pub keeps_windows :
      (m : Machine P) (count : ℕ) (slots ports : List ℕ) (card : Card P)
      → MemorySound m
      → MemorySound (record m {
        memory_access_count = count;
        probed_slots = slots;
        probed_id_ports = ports;
        card = card;
      })
  keeps_windows m count slots ports card w = record {
    first = w.first;
    second = w.second;
    third = w.third;
    fourth = w.fourth;
    covered = w.covered;
  }

module _ {P : Type 0} (settings : Settings) where
  read_isa-Safely :
      (port : ℕ) (m : Machine P) → MemorySound m → Safely (λ r. r.1) (read_isa settings port m)
  unfolding read_isa
  read_isa-Safely port m w =
      let noted = note_probe settings port m in
      let after = λ (c : Card P).
        keeps_windows m m.memory_access_count noted.probed_slots noted.probed_id_ports c w in
      if_both (Safely (λ r. r.1)) (not (is_in_slot settings noted)) (after m.card) (
        if_both (Safely (λ r. r.1)) (not m.card.active && port == id_port settings)
          (after (id_read m.card).1)
          (if_both (Safely (λ r. r.1)) (is_card_port settings port m.card)
            (on_card-Safely (λ r. r.1) (read_byte m.card (port - m.card.base))
              (λ r. (r.0, record noted { card = r.1 })) (λ r. after r.1))
            (after m.card)))

  -- A read keeps every window mapped.
  pub rd-Safely : (a : ℕ) (m : Machine P) → MemorySound m → Safely (λ r. r.1) (rd settings a m)
  unfolding rd
  rd-Safely a m w =
      let address = a % 65536 in
      let v =
        keeps_windows m (m.memory_access_count + 1) m.probed_slots m.probed_id_ports m.card w in
      if_both (Safely (λ r. r.1)) (leb 0xc000 address && m.isa_open)
        (read_isa-Safely (address % 0x4000) (counted m) v)
        (read_at-Safely (counted m) address (window_at m address) v
          (window_at-IsMapped m address w))

  module _ (peers : Peers P) where
    write_isa-Safely :
        (port v : ℕ) (m : Machine P)
        → MemorySound m
        → Safely (λ r. r) (write_isa settings peers port v m)
    unfolding write_isa
    write_isa-Safely port v m w =
        let noted = note_probe settings port m in
        let after = λ (c : Card P).
          keeps_windows m m.memory_access_count noted.probed_slots noted.probed_id_ports c w in
        if_both (Safely (λ r. r)) (not (is_in_slot settings noted)) (after m.card) (
          if_both (Safely (λ r. r)) (not m.card.active && port == id_port settings)
            (on_card-Safely (λ r. r) (id_write m.card v) (λ c. record noted { card = c }) after)
            (if_both (Safely (λ r. r)) (is_card_port settings port m.card)
              (on_card-Safely (λ r. r) (write_byte peers m.card (port - m.card.base) v)
                (λ c. record noted { card = c }) after)
              (after m.card)))

    -- So does a write.
    pub wr-Safely :
        (a v : ℕ) (m : Machine P) → MemorySound m → Safely (λ r. r) (wr settings peers a v m)
    unfolding wr
    wr-Safely a v m w =
        let address = a % 65536 in
        let k =
          keeps_windows m (m.memory_access_count + 1) m.probed_slots m.probed_id_ports m.card w in
        if_both (Safely (λ r. r)) (leb 0xc000 address && m.isa_open)
          (write_isa-Safely (address % 0x4000) (v % 256) (counted m) k)
          (write_at-Safely (counted m) address (v % 256) (window_at m address) k
            (window_at-IsMapped m address w))
