-- ===== src/Card/Eeprom.antt =====
-- `eepromWords`: the EEPROM image of a card with a MAC address and a base port.
use sprinter_3c509b.Base.{
  ℕ, zero, suc, ◌+◌, ◌-◌, ◌/◌, ◌%◌, List, [], ◌∷◌, get_or, set, replicate, bit_xor, Bytes, word_at,
  word,
}

-- The two bytes of a word, exclusive-or.
abbrev pub fold_word : ℕ → ℕ
fold_word w = bit_xor (w % 256) (w / 256)

-- The exclusive-or of the words at some places.
unfoldable pub lane : List ℕ → List ℕ → ℕ
lane words [] = 0
lane words (i ∷ places) = bit_xor (fold_word (get_or words i 0)) (lane words places)

-- `count` places from `first` on.
abbrev pub run_of : ℕ → ℕ → List ℕ
run_of first zero = []
run_of first (suc count) = first ∷ run_of (first + 1) count

-- The low lane of word 15 and the rest of its words, and the two lanes of word 23.
abbrev pub settings : List ℕ
settings = 8 ∷ 9 ∷ 13 ∷ []

abbrev pub identity : List ℕ
identity = 0 ∷ 1 ∷ 2 ∷ 3 ∷ 4 ∷ 5 ∷ 6 ∷ 7 ∷ 10 ∷ 11 ∷ 12 ∷ 14 ∷ []

abbrev pub vital : List ℕ
vital = 16 ∷ 17 ∷ 18 ∷ run_of 24 40

abbrev pub configurable : List ℕ
configurable = 19 ∷ 20 ∷ 21 ∷ 22 ∷ []

-- The words before the checksums; the others are 0. The difference from 0x200 is taken on 16 bits.
unfoldable pub plain_words : Bytes → ℕ → List ℕ
plain_words mac base =
    let a = word_at mac 0 in
    let b = word_at mac 2 in
    let c = word_at mac 4 in
    let port = (base + 0x10000 - 0x200) / 16 % 32 in
    a
    ∷ b
    ∷ c
    ∷ 0x9550
    ∷ 0
    ∷ 0
    ∷ 0
    ∷ 0x6d50
    ∷ port
    ∷ 0x3000
    ∷ a
    ∷ b
    ∷ c
    ∷ 1
    ∷ 0
    ∷ 0
    ∷ 0x2083
    ∷ 0
    ∷ 2
    ∷ 1
    ∷ 1
    ∷ 0
    ∷ 0
    ∷ 0
    ∷ replicate 40 0

-- A word that has one lane in its low and one in its high byte.
unfoldable pub with_lanes : ℕ → List ℕ → List ℕ → List ℕ → List ℕ
unfolding lane
with_lanes at low_places high_places words =
    set words at (word (lane words high_places) (lane words low_places))

unfoldable pub eeprom_words : Bytes → ℕ → List ℕ
unfolding plain_words with_lanes
eeprom_words mac base =
    with_lanes 23 configurable vital (with_lanes 15 settings identity (plain_words mac base))
