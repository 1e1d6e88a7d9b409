-- ===== src/Machine/Memory.antt =====
-- `rd` and `wr`: a read and a write of the processor, through the windows and the ISA window.
pub mod Cells
use sprinter_3c509b.Base.{
  ℕ, ◌+◌, ◌-◌, ◌%◌, Bool, not, ◌&&◌, Option, none, some, List, [], ◌∷◌, ◌++◌, ltb, leb, ◌==◌,
  if◌then◌else◌, or_nonzero,
}
use sprinter_3c509b.Card.{Card, Peers}
use sprinter_3c509b.Card.Bus.{read_byte, write_byte}
use sprinter_3c509b.Card.Id.{id_read, id_write}
use sprinter_3c509b.Peer.Tcp.Drain.{includes}
use sprinter_3c509b.Machine.{
  missing_page, Outcome, done, failed, on_card, Memory, put, entry_at, without_entry, Settings,
  Machine,
}

-- `Set.add`
abbrev pub with_member : ℕ → List ℕ → List ℕ
with_member n set = if includes set n then set else set ++ (n ∷ [])

abbrev pub id_port : Settings → ℕ
id_port settings = or_nonzero settings.id_port 0x110

module _ {P : Type 0} where
  -- The page that an address falls into, if its window has one.
  abbrev pub window_at : Machine P → ℕ → Option ℕ
  window_at m address =
      if ltb address 0x4000
      then m.win0
      else if ltb address 0x8000
      then m.win1
      else if ltb address 0xc000
      then m.win2
      else m.win3

  abbrev pub counted : Machine P → Machine P
  counted m = record m { memory_access_count = m.memory_access_count + 1 }

  -- The byte of a page, and a page with a byte changed: a page that is gone is a failure.
  abbrev pub page_byte : ℕ → Machine P → Option Memory → Outcome (ℕ × Machine P)
  page_byte offset m none = failed missing_page
  page_byte offset m (some page) = done (page offset, m)

  abbrev pub page_put : ℕ → ℕ → ℕ → Machine P → Option Memory → Outcome (Machine P)
  page_put id offset v m none = failed missing_page
  page_put id offset v m (some page) =
      done (record m { pages = (id, put offset v page) ∷ without_entry id m.pages })

  abbrev pub read_at : ℕ → Machine P → Option ℕ → Outcome (ℕ × Machine P)
  read_at address m none = done (m.ram address, m)
  read_at address m (some id) = page_byte (address % 0x4000) m (entry_at id m.pages)

  abbrev pub write_at : ℕ → ℕ → Machine P → Option ℕ → Outcome (Machine P)
  write_at address v m none = done (record m { ram = put address v m.ram })
  write_at address v m (some id) = page_put id (address % 0x4000) v m (entry_at id m.pages)

  module _ (settings : Settings) where
    -- What the harness notes of an access to an inactive card.
    abbrev pub note_probe : ℕ → Machine P → Machine P
    note_probe port m =
        let is_id = leb 0x100 port && leb port 0x1f0 && port % 16 == 0 in
        record m {
          probed_id_ports =
              if not m.card.active && is_id
              then with_member port m.probed_id_ports
              else m.probed_id_ports;
          probed_slots =
              if not m.card.active && port == id_port settings
              then with_member m.selected_slot m.probed_slots
              else m.probed_slots;
        }

    abbrev pub is_in_slot : Machine P → Bool
    is_in_slot m = m.selected_slot == settings.card_slot && m.card.present

    abbrev pub is_card_port : ℕ → Card P → Bool
    is_card_port port c = c.active && leb c.base port && ltb port (c.base + 0x10)

    unfoldable pub read_isa : ℕ → Machine P → Outcome (ℕ × Machine P)
    read_isa port before =
        let m = note_probe port before in
        let identified = id_read m.card in
        if not (is_in_slot m)
        then done (0xff, m)
        else if not m.card.active && port == id_port settings
        then done (identified.0, record m { card = identified.1 })
        else if is_card_port port m.card
        then on_card (read_byte m.card (port - m.card.base)) (λ r. (r.0, record m { card = r.1 }))
        else done (0xff, m)

    unfoldable pub rd : ℕ → Machine P → Outcome (ℕ × Machine P)
    unfolding read_isa
    rd a before =
        let address = a % 65536 in
        let m = counted before in
        if leb 0xc000 address && m.isa_open
        then read_isa (address % 0x4000) m
        else read_at address m (window_at m address)

    module _ (peers : Peers P) where
      unfoldable pub write_isa : ℕ → ℕ → Machine P → Outcome (Machine P)
      write_isa port v before =
          let m = note_probe port before in
          if not (is_in_slot m)
          then done m
          else if not m.card.active && port == id_port settings
          then on_card (id_write m.card v) (λ c. record m { card = c })
          else if is_card_port port m.card
          then on_card (write_byte peers m.card (port - m.card.base) v) (λ c. record m { card = c })
          else done m

      unfoldable pub wr : ℕ → ℕ → Machine P → Outcome (Machine P)
      unfolding write_isa
      wr a value before =
          let address = a % 65536 in
          let v = value % 256 in
          let m = counted before in
          if leb 0xc000 address && m.isa_open
          then write_isa (address % 0x4000) v m
          else write_at address v m (window_at m address)
