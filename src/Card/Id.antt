-- ===== src/Card/Id.antt =====
-- The ID port of the card: `lfsr`, `idWrite` and `idRead`.
pub mod Select
pub mod Serial
use sprinter_3c509b.Base.{
  ℕ, zero, suc, ◌+◌, ◌-◌, ◌*◌, ◌/◌, ◌%◌, ◌^◌, Bool, true, false, not, ◌&&◌, ◌||◌, Option, none,
  some, List, [], ◌∷◌, ltb, leb, ◌==◌, if◌then◌else◌, get_or, bit_xor, Result, ok, err, bad_id_byte,
  id_without_activation, unknown_id_command,
}
use sprinter_3c509b.Card.{Card, reset_runtime}

-- One round: a shift, and 0xcf where the high bit falls out.
abbrev pub lfsr_next : ℕ → ℕ
lfsr_next v = bit_xor (v * 2 % 256) (if leb 128 v then 0xcf else 0)

unfoldable pub lfsr : ℕ → ℕ
lfsr zero = 0xff
lfsr (suc index) = lfsr_next (lfsr index)

-- The 16 bits of a word, the highest first.
abbrev pub word_bits : ℕ → ℕ → List ℕ
word_bits zero w = []
word_bits (suc n) w = w / 2 ^ n % 2 ∷ word_bits n w

module _ {P : Type 0} where
  -- The commands, once the card is selected; `value` is not 0.
  unfoldable pub id_command : Card P → ℕ → Result (Card P)
  id_command c value =
      if value == 0xc0
      then ok (record (reset_runtime c) { tagged = false })
      else if value == 0xd0
      then ok (record c { tagged = false })
      else if value / 64 == 2
      then ok (record c { serial_bits = word_bits 16 (get_or c.eeprom (value % 64) 0) })
      else if value == 0xff
      then ok (record c { base = c.eeprom_base; active = true })
      else if value / 32 == 7
      then ok (record c { base = 0x200 + value % 32 * 16; active = true })
      else err unknown_id_command

  -- A byte while no ID sequence is under way.
  unfoldable pub id_idle : Card P → ℕ → Result (Card P)
  unfolding id_command
  id_idle c value =
      if value == 0
      then ok (
          if c.id_zeros + 1 == 2
          then record c { id_zeros = 0; id_index = some 0; id_selected = false }
          else record c { id_zeros = c.id_zeros + 1 })
      else if not c.id_selected
      then err id_without_activation
      else id_command (record c { id_zeros = 0 }) value

  -- A byte of the ID sequence, the one at `index`.
  unfoldable pub id_sequence : Card P → ℕ → ℕ → Result (Card P)
  unfolding lfsr
  id_sequence c index value =
      if not (value == lfsr index)
      then err bad_id_byte
      else ok (
          if index + 1 == 255
          then record c { id_index = none; id_selected = true }
          else record c { id_index = some (index + 1) })

  unfoldable pub id_write : Card P → ℕ → Result (Card P)
  unfolding id_idle id_sequence
  id_write c value = if not c.present then ok c else elim c.id_index [
    | none ↦ id_idle c (value % 256)
    | some index ↦ id_sequence c index (value % 256)
  ]

  unfoldable pub id_read : Card P → ℕ × Card P
  id_read c = elim c.serial_bits [
    | [] ↦ (1, c)
    | bit ∷ rest ↦ (bit, record c { serial_bits = rest })
  ]
