-- ===== src/Card/Id/Serial.antt =====
-- The EEPROM word that the ID port shifts out.
use sprinter_3c509b.Base.{
  ℕ, zero, suc, ◌+◌, ◌*◌, ◌/◌, ◌%◌, ◌<◌, ◌≡◌, refl, ◌∙◌, ap, true, none, List, [], ◌∷◌, arith,
  get_or, ok, not, ◌==◌, if_false, if_true, ne→==, eq→==,
}
use sprinter_3c509b.Card.{Card}
use sprinter_3c509b.Card.Id.{word_bits, id_write, id_idle, id_command, id_read}

module _ {P : Type 0} where
  -- The program reads `n` bits and joins them, the first one the highest.
  abbrev pub read_bits : ℕ → Card P → ℕ → ℕ × Card P
  read_bits zero c acc = (acc, c)
  read_bits (suc n) c acc = let (bit, d) = id_read c in read_bits n d (acc * 2 + bit)

  id_read-bit :
      (c : Card P) (bit : ℕ) (rest : List ℕ)
      → id_read (record c { serial_bits = bit ∷ rest }) ≡ (bit, record c { serial_bits = rest })
  unfolding id_read
  id_read-bit c bit rest = refl

  id_idle-eeprom :
      (c : Card P) (value index : ℕ)
      → c.id_index ≡ none
      → c.id_selected ≡ true
      → value ≡ 128 + index
      → index < 64
      → id_idle c value
        ≡ ok (record c { id_zeros = 0; serial_bits = word_bits 16 (get_or c.eeprom index 0) })
  unfolding id_idle id_command
  id_idle-eeprom c value index idle selected e h =
      if_false (value == 0) _ _ (ne→== value 0 (omega arith))
      ∙ if_false (not c.id_selected) _ _ (ap not selected)
      ∙ if_false (value == 0xc0) _ _ (ne→== value 0xc0 (omega arith))
      ∙ if_false (value == 0xd0) _ _ (ne→== value 0xd0 (omega arith))
      ∙ if_true (value / 64 == 2) _ _ (eq→== (value / 64) 2 (omega arith))
      ∙ ap (λ k. ok (record c { id_zeros = 0; serial_bits = word_bits 16 (get_or c.eeprom k 0) }))
          at
    where
      at : value % 64 ≡ index
      at = omega arith

  -- The EEPROM read command leaves the word's bits to be shifted out.
  id_write-eeprom :
      (c : Card P) (index : ℕ)
      → c.present ≡ true
      → c.id_index ≡ none
      → c.id_selected ≡ true
      → index < 64
      → id_write c (128 + index)
        ≡ ok (record c { id_zeros = 0; serial_bits = word_bits 16 (get_or c.eeprom index 0) })
  unfolding id_write
  id_write-eeprom c index here idle selected h = ground (
    arith,
    id_idle-eeprom c ((128 + index) % 256) index idle selected (omega arith) (omega arith),
  )

  read_bits-word :
      (c : Card P) (w : ℕ)
      → w < 65536
      → read_bits 16 (record c { serial_bits = word_bits 16 w }) 0
        ≡ (w, record c { serial_bits = [] })
  unfolding id_read
  read_bits-word c w h = ap (λ x. (x, record c { serial_bits = [] })) (omega arith)

  -- A selected card that is told to read EEPROM word `index` shifts that word out in 16 reads of
  -- the ID port, most significant bit first; from then on the port reads 1. Nothing but the count
  -- of zeros and the bits to shift out changes. The word has 16 bits.
  pub eeprom_word_read :
      (c : Card P) (index : ℕ)
      → c.present ≡ true
      → c.id_index ≡ none
      → c.id_selected ≡ true
      → index < 64
      → get_or c.eeprom index 0 < 65536
      → (d : Card P) × (id_write c (128 + index) ≡ ok d)
        × (read_bits 16 d 0
            ≡ (get_or c.eeprom index 0, record c { id_zeros = 0; serial_bits = [] }))
        × (id_read (record c { id_zeros = 0; serial_bits = [] })
            ≡ (1, record c { id_zeros = 0; serial_bits = [] }))
  unfolding id_read
  eeprom_word_read c index here idle selected h small = (
    record c { id_zeros = 0; serial_bits = word_bits 16 (get_or c.eeprom index 0) },
    id_write-eeprom c index here idle selected h,
    read_bits-word (record c { id_zeros = 0 }) (get_or c.eeprom index 0) small,
    refl,
  )
