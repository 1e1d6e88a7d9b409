-- ===== src/Card/New/Mac.antt =====
-- How a program reads the MAC address of a fresh card.
use sprinter_3c509b.Base.{
  ℕ, zero, suc, ◌+◌, ◌*◌, ◌<◌, ◌≡◌, ◌∙◌, ap, sym, true, none, [], ◌∷◌, arith, get_or, word_at,
  Bytes, AllBytes, AllBytes-at, or_default, or_nonzero, ok, ◌>>=◌,
}
use mathlib.Core.Path.{subst, refl}
use sprinter_3c509b.Card.{Card}
use sprinter_3c509b.Card.Eeprom.{eeprom_words}
use sprinter_3c509b.Card.Id.{id_write}
use sprinter_3c509b.Card.Id.Select.{id_write_all, id_sequence_bytes, sequence_bytes-select}
use sprinter_3c509b.Card.Id.Serial.{read_bits, eeprom_word_read}
use sprinter_3c509b.Card.New.{Setup, default_mac, patched, new_card}

-- The first words of the image are the address.
eeprom_words-word_at :
    (mac : Bytes) (base index : ℕ)
    → index < 3
    → get_or (eeprom_words mac base) index 0 ≡ word_at mac (index * 2)
unfolding eeprom_words
eeprom_words-word_at mac base zero h = refl
eeprom_words-word_at mac base (suc zero) h = refl
eeprom_words-word_at mac base (suc (suc zero)) h = refl
eeprom_words-word_at mac base (suc (suc (suc n))) h = absurd (omega arith)

word_at-lt : (mac : Bytes) (at : ℕ) → AllBytes mac → word_at mac at < 65536
word_at-lt mac at bytes =
    let high = AllBytes-at at mac bytes in let low = AllBytes-at (at + 1) mac bytes in omega arith

-- A program that selects a fresh card by the ID sequence and asks for word 0, 1 or 2 of the EEPROM
-- reads the first, the second or the third pair of bytes of the MAC address in 16 reads of the ID
-- port. The card is present, the scenario patches no word, and the address has bytes below 256.
pub new_card-mac_read :
    {P : Type 0} (s : Setup) (peer : P) (index : ℕ)
    → s.card_present ≡ true
    → s.eeprom_patch ≡ []
    → AllBytes (or_default s.mac default_mac)
    → index < 3
    → (d : Card P) × ((id_write_all (new_card s peer) (0 ∷ 0 ∷ id_sequence_bytes) >>= λ c.
          id_write c (128 + index))
        ≡ ok d)
      × ((read_bits 16 d 0).0 ≡ word_at (or_default s.mac default_mac) (index * 2))
unfolding new_card
new_card-mac_read s peer index here plain bytes small =
    let mac = or_default s.mac default_mac in
    let base = or_nonzero s.eeprom_base (or_nonzero s.base 0x300) in
    let fresh = new_card s peer in
    let selected = record fresh { id_zeros = 0; id_index = none; id_selected = true } in
    let is_word : get_or fresh.eeprom index 0 ≡ word_at mac (index * 2) =
      ap (λ p. get_or (patched (eeprom_words mac base) p) index 0) plain
      ∙ eeprom_words-word_at mac base index small in
    let fits : get_or fresh.eeprom index 0 < 65536 =
      subst (λ w. w < 65536) (sym is_word) (word_at-lt mac (index * 2) bytes) in
    let (d, written, read, _) = eeprom_word_read selected index here refl refl (omega arith) fits in
    (
      d,
      ap (λ r. r >>= λ c. id_write c (128 + index)) (sequence_bytes-select fresh here refl refl)
          ∙ written,
      ap (λ r. r.0) read ∙ is_word,
    )
