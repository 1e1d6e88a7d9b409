-- ===== src/Machine/Ports.antt =====
-- `io_read` and `io_write`: the ports of the windows and of the ISA mapping.
use sprinter_3c509b.Base.{
  ℕ, ◌+◌, ◌-◌, ◌/◌, ◌%◌, Bool, true, false, not, ◌&&◌, ◌||◌, Option, none, some, [], ◌∷◌, ◌==◌,
  if◌then◌else◌,
}
use sprinter_3c509b.Card.{ByteMap}
use sprinter_3c509b.Machine.{
  Outcome, done, failed, half_read, half_write, unknown_port, unknown_system_value, bad_isa_mapping,
  Machine, allocated,
}

abbrev pub is_left : ByteMap → Bool
is_left [] = false
is_left (_ ∷ _) = true

module _ {P : Type 0} where
  unfoldable pub io_read : ℕ → Machine P → Outcome ℕ
  io_read port m =
      let low_port = port % 256 in
      if low_port == 0x82
      then done m.page0
      else if low_port == 0xa2
      then done m.page1
      else if low_port == 0xc2
      then done m.page2
      else if low_port == 0xe2
      then done m.page3
      else failed unknown_port

  -- A page that is allocated is mapped; any other value maps the machine's own memory.
  abbrev pub mapped : Machine P → ℕ → Option ℕ
  mapped m value = if allocated m value then some value else none

  -- The ISA window closes only between two whole words.
  unfoldable pub close_isa : Machine P → Outcome (Machine P)
  close_isa m =
      if m.isa_open && is_left m.card.word_read_high
      then failed half_read
      else if m.isa_open && is_left m.card.word_write_low
      then failed half_write
      else done (record m { system_isa = false; isa_open = false })

  abbrev pub select_slot : ℕ → Machine P → ℕ
  select_slot value m =
      if m.system_isa && (value == 0xd4 || value == 0xd6)
      then (value - 0xd4) / 2
      else m.selected_slot

  unfoldable pub io_write : ℕ → ℕ → Machine P → Outcome (Machine P)
  unfolding close_isa
  io_write p v m =
      let port = p % 65536 in
      let value = v % 256 in
      let low_port = port % 256 in
      if port == 0x1ffd
      then if value == 0x11
        then done (record m { system_isa = true })
        else if value == 1
        then close_isa m
        else failed unknown_system_value
      else if low_port == 0x82
      then done (record m { page0 = value; win0 = mapped m value })
      else if low_port == 0xa2
      then done (record m { page1 = value; win1 = mapped m value })
      else if low_port == 0xc2
      then done (record m { page2 = value; win2 = mapped m value })
      else if low_port == 0xe2
      then done
          (record m { page3 = value; win3 = mapped m value; selected_slot = select_slot value m })
      else if port == 0x9fbd
      then if not m.system_isa || not (value == 0)
        then failed bad_isa_mapping
        else done (record m { isa_open = true; isa_session_count = m.isa_session_count + 1 })
      else failed unknown_port
