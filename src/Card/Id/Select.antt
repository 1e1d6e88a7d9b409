-- ===== src/Card/Id/Select.antt =====
-- The ID sequence selects the card.
use sprinter_3c509b.Base.{
  ℕ, zero, suc, length, equal, AllBytes, sym, Bool-cases, inl, inr, ◌&&◌, eq→==, if_true, ◌+◌, ◌%◌,
  ◌<◌, ◌≡◌, ◌≢◌, refl, ◌∙◌, ap, true, false, none, some, List, [], ◌∷◌, arith, ltb, ltb→lt, Result,
  ok, err, ◌>>=◌, bad_id_byte, holds_below, holds_below-at, ne→==, if_false, if◌then◌else◌, ◌==◌,
}
use mathlib.Core.Path.{subst}
use sprinter_3c509b.Card.{Card}
use sprinter_3c509b.Card.Id.{lfsr, lfsr_next, id_write, id_sequence, id_idle}

-- The program writes these bytes to the ID port.
abbrev pub id_write_all : {P : Type 0} → Card P → List ℕ → Result (Card P)
id_write_all c [] = ok c
id_write_all c (b ∷ bs) = id_write c b >>= λ d. id_write_all d bs

-- The `k` bytes of the ID sequence from the one at `index` on.
abbrev sequence_from : ℕ → ℕ → List ℕ
sequence_from index zero = []
sequence_from index (suc k) = lfsr index ∷ sequence_from (index + 1) k

-- The 255 bytes of the ID sequence, as the adapter expects them.
abbrev pub id_sequence_bytes : List ℕ
id_sequence_bytes =
    0xff ∷ 0x31 ∷ 0x62 ∷ 0xc4 ∷ 0x47 ∷ 0x8e ∷ 0xd3 ∷ 0x69 ∷ 0xd2 ∷ 0x6b ∷ 0xd6 ∷ 0x63 ∷ 0xc6 ∷ 0x43
    ∷ 0x86 ∷ 0xc3 ∷ 0x49 ∷ 0x92 ∷ 0xeb ∷ 0x19 ∷ 0x32 ∷ 0x64 ∷ 0xc8 ∷ 0x5f ∷ 0xbe ∷ 0xb3 ∷ 0xa9
    ∷ 0x9d ∷ 0xf5 ∷ 0x25 ∷ 0x4a ∷ 0x94 ∷ 0xe7 ∷ 0x01 ∷ 0x02 ∷ 0x04 ∷ 0x08 ∷ 0x10 ∷ 0x20 ∷ 0x40
    ∷ 0x80 ∷ 0xcf ∷ 0x51 ∷ 0xa2 ∷ 0x8b ∷ 0xd9 ∷ 0x7d ∷ 0xfa ∷ 0x3b ∷ 0x76 ∷ 0xec ∷ 0x17 ∷ 0x2e
    ∷ 0x5c ∷ 0xb8 ∷ 0xbf ∷ 0xb1 ∷ 0xad ∷ 0x95 ∷ 0xe5 ∷ 0x05 ∷ 0x0a ∷ 0x14 ∷ 0x28 ∷ 0x50 ∷ 0xa0
    ∷ 0x8f ∷ 0xd1 ∷ 0x6d ∷ 0xda ∷ 0x7b ∷ 0xf6 ∷ 0x23 ∷ 0x46 ∷ 0x8c ∷ 0xd7 ∷ 0x61 ∷ 0xc2 ∷ 0x4b
    ∷ 0x96 ∷ 0xe3 ∷ 0x09 ∷ 0x12 ∷ 0x24 ∷ 0x48 ∷ 0x90 ∷ 0xef ∷ 0x11 ∷ 0x22 ∷ 0x44 ∷ 0x88 ∷ 0xdf
    ∷ 0x71 ∷ 0xe2 ∷ 0x0b ∷ 0x16 ∷ 0x2c ∷ 0x58 ∷ 0xb0 ∷ 0xaf ∷ 0x91 ∷ 0xed ∷ 0x15 ∷ 0x2a ∷ 0x54
    ∷ 0xa8 ∷ 0x9f ∷ 0xf1 ∷ 0x2d ∷ 0x5a ∷ 0xb4 ∷ 0xa7 ∷ 0x81 ∷ 0xcd ∷ 0x55 ∷ 0xaa ∷ 0x9b ∷ 0xf9
    ∷ 0x3d ∷ 0x7a ∷ 0xf4 ∷ 0x27 ∷ 0x4e ∷ 0x9c ∷ 0xf7 ∷ 0x21 ∷ 0x42 ∷ 0x84 ∷ 0xc7 ∷ 0x41 ∷ 0x82
    ∷ 0xcb ∷ 0x59 ∷ 0xb2 ∷ 0xab ∷ 0x99 ∷ 0xfd ∷ 0x35 ∷ 0x6a ∷ 0xd4 ∷ 0x67 ∷ 0xce ∷ 0x53 ∷ 0xa6
    ∷ 0x83 ∷ 0xc9 ∷ 0x5d ∷ 0xba ∷ 0xbb ∷ 0xb9 ∷ 0xbd ∷ 0xb5 ∷ 0xa5 ∷ 0x85 ∷ 0xc5 ∷ 0x45 ∷ 0x8a
    ∷ 0xdb ∷ 0x79 ∷ 0xf2 ∷ 0x2b ∷ 0x56 ∷ 0xac ∷ 0x97 ∷ 0xe1 ∷ 0x0d ∷ 0x1a ∷ 0x34 ∷ 0x68 ∷ 0xd0
    ∷ 0x6f ∷ 0xde ∷ 0x73 ∷ 0xe6 ∷ 0x03 ∷ 0x06 ∷ 0x0c ∷ 0x18 ∷ 0x30 ∷ 0x60 ∷ 0xc0 ∷ 0x4f ∷ 0x9e
    ∷ 0xf3 ∷ 0x29 ∷ 0x52 ∷ 0xa4 ∷ 0x87 ∷ 0xc1 ∷ 0x4d ∷ 0x9a ∷ 0xfb ∷ 0x39 ∷ 0x72 ∷ 0xe4 ∷ 0x07
    ∷ 0x0e ∷ 0x1c ∷ 0x38 ∷ 0x70 ∷ 0xe0 ∷ 0x0f ∷ 0x1e ∷ 0x3c ∷ 0x78 ∷ 0xf0 ∷ 0x2f ∷ 0x5e ∷ 0xbc
    ∷ 0xb7 ∷ 0xa1 ∷ 0x8d ∷ 0xd5 ∷ 0x65 ∷ 0xca ∷ 0x5b ∷ 0xb6 ∷ 0xa3 ∷ 0x89 ∷ 0xdd ∷ 0x75 ∷ 0xea
    ∷ 0x1b ∷ 0x36 ∷ 0x6c ∷ 0xd8 ∷ 0x7f ∷ 0xfe ∷ 0x33 ∷ 0x66 ∷ 0xcc ∷ 0x57 ∷ 0xae ∷ 0x93 ∷ 0xe9
    ∷ 0x1d ∷ 0x3a ∷ 0x74 ∷ 0xe8 ∷ 0x1f ∷ 0x3e ∷ 0x7c ∷ 0xf8 ∷ 0x3f ∷ 0x7e ∷ 0xfc ∷ 0x37 ∷ 0x6e
    ∷ 0xdc ∷ 0x77 ∷ 0xee ∷ 0x13 ∷ 0x26 ∷ 0x4c ∷ 0x98 ∷ []

sequence_from-bytes : sequence_from 0 255 ≡ id_sequence_bytes
unfolding lfsr
sequence_from-bytes = refl

lfsr_next_table : holds_below (λ v. ltb (lfsr_next v) 256) 256 ≡ true
unfolding holds_below
lfsr_next_table = refl

lfsr-lt : (index : ℕ) → lfsr index < 256
unfolding lfsr
lfsr-lt zero = omega arith
lfsr-lt (suc index) =
    ltb→lt (lfsr_next (lfsr index)) 256
      (holds_below-at (λ v. ltb (lfsr_next v) 256) 256 (lfsr index) (lfsr-lt index) lfsr_next_table)

sequence_from-AllBytes : (index k : ℕ) → AllBytes (sequence_from index k)
sequence_from-AllBytes index zero = tt
sequence_from-AllBytes index (suc k) = (lfsr-lt index, sequence_from-AllBytes (index + 1) k)

module _ {P : Type 0} where
  -- The step that the expected byte makes.
  id_write-expected :
      (c : Card P) (index : ℕ)
      → c.present ≡ true
      → c.id_index ≡ some index
      → id_write c (lfsr index)
        ≡ ok (
            if index + 1 == 255
            then record c { id_index = none; id_selected = true }
            else record c { id_index = some (index + 1) })
  unfolding id_write id_sequence
  id_write-expected c index here at = ground (arith, lfsr-lt index)

  -- Any other byte in the sequence is refused.
  id_write-unexpected :
      (c : Card P) (index value : ℕ)
      → c.present ≡ true
      → c.id_index ≡ some index
      → value % 256 ≢ lfsr index
      → id_write c value ≡ err bad_id_byte
  unfolding id_write id_sequence
  id_write-unexpected c index value here at ne = ground arith

  -- The bytes of the program against those that the card expects from `index` on.
  abbrev verdict : ℕ → List ℕ → Card P → Result (Card P)
  verdict index bytes c =
      if equal bytes (sequence_from index (length bytes))
      then ok (record c { id_index = none; id_selected = true })
      else err bad_id_byte

  matched :
      (b : ℕ) (bs : List ℕ) (index : ℕ) (c : Card P)
      → b == lfsr index ≡ true
      → verdict (index + 1) bs (record c { id_index = some (index + 1) }) ≡ verdict index (b ∷ bs) c
  matched b bs index c e =
      ap
        (λ t.
          if t && equal bs (sequence_from (index + 1) (length bs))
          then ok (record c { id_index = none; id_selected = true })
          else err bad_id_byte)
        (sym e)

  refused :
      (b : ℕ) (bs : List ℕ) (index : ℕ) (c : Card P)
      → c.present ≡ true
      → c.id_index ≡ some index
      → b < 256
      → b == lfsr index ≡ false
      → id_write_all c (b ∷ bs) ≡ verdict index (b ∷ bs) c
  refused b bs index c here at small e =
      ap (λ r. r >>= λ d. id_write_all d bs) (id_write-unexpected c index b here at (ground arith))
      ∙ ap
          (λ t.
            if t && equal bs (sequence_from (index + 1) (length bs))
            then ok (record c { id_index = none; id_selected = true })
            else err bad_id_byte)
          (sym e)

  accepted :
      (b : ℕ) (bs : List ℕ) (index : ℕ) (c : Card P)
      → c.present ≡ true
      → c.id_index ≡ some index
      → b == lfsr index ≡ true
      → id_write_all c (b ∷ bs)
        ≡ id_write_all
            (if index + 1 == 255
              then record c { id_index = none; id_selected = true }
              else record c { id_index = some (index + 1) })
            bs
  accepted b bs index c here at e =
      let same : b ≡ lfsr index = ground arith in
      ap (λ v. id_write_all c (v ∷ bs)) same
      ∙ ap (λ r. r >>= λ d. id_write_all d bs) (id_write-expected c index here at)

  sequence-verdict :
      (bytes : List ℕ) (b index : ℕ) (c : Card P)
      → c.present ≡ true
      → c.id_index ≡ some index
      → suc (length bytes) + index ≡ 255
      → AllBytes (b ∷ bytes)
      → id_write_all c (b ∷ bytes) ≡ verdict index (b ∷ bytes) c
  sequence-verdict [] b index c here at sum small = elim (Bool-cases (b == lfsr index)) [
    | inl e ↦
        accepted b [] index c here at e
        ∙ (ap ok (if_true (index + 1 == 255) _ _ (eq→== (index + 1) 255 (omega arith)))
            ∙ matched b [] index c e)
    | inr e ↦ refused b [] index c here at small.0 e
  ]
  sequence-verdict (x ∷ xs) b index c here at sum small = elim (Bool-cases (b == lfsr index)) [
    | inl e ↦
        accepted b (x ∷ xs) index c here at e
        ∙ (ap (λ d. id_write_all d (x ∷ xs))
              (if_false (index + 1 == 255) _ _ (ne→== (index + 1) 255 (omega arith)))
            ∙ (sequence-verdict xs x (index + 1) (record c { id_index = some (index + 1) }) here
                  refl (omega arith) small.1
                ∙ matched b (x ∷ xs) index c e))
    | inr e ↦ refused b (x ∷ xs) index c here at small.0 e
  ]

  id_write_first-zero :
      (c : Card P)
      → c.present ≡ true
      → c.id_index ≡ none
      → c.id_zeros ≡ 0
      → id_write c 0 ≡ ok (record c { id_zeros = 1 })
  unfolding id_write id_idle
  id_write_first-zero c here idle zeros = ground arith

  id_write_second-zero :
      (c : Card P)
      → c.present ≡ true
      → c.id_index ≡ none
      → c.id_zeros ≡ 1
      → id_write c 0 ≡ ok (record c { id_zeros = 0; id_index = some 0; id_selected = false })
  unfolding id_write id_idle
  id_write_second-zero c here idle zeros = ground arith

  -- Two zeros put a present card that was in no sequence and has seen no zero into the ID sequence,
  -- whatever state it is in otherwise. The 255 bytes behind them select it exactly if they are those
  -- of the ID sequence, which are written out, and nothing else has changed then; any others are refused.
  pub sequence_selects_card :
      (c : Card P) (bytes : List ℕ)
      → c.present ≡ true
      → c.id_index ≡ none
      → c.id_zeros ≡ 0
      → length bytes ≡ 255
      → AllBytes bytes
      → id_write_all c (0 ∷ 0 ∷ bytes) ≡ (
          if equal bytes id_sequence_bytes
          then ok (record c { id_zeros = 0; id_index = none; id_selected = true })
          else err bad_id_byte)
  sequence_selects_card c [] here idle zeros whole small = absurd (omega arith)
  sequence_selects_card c (b ∷ bs) here idle zeros whole small =
      ap (λ r. r >>= λ d. id_write_all d (0 ∷ b ∷ bs)) (id_write_first-zero c here idle zeros)
      ∙ ap (λ r. r >>= λ d. id_write_all d (b ∷ bs))
          (id_write_second-zero (record c { id_zeros = 1 }) here idle refl)
      ∙ sequence-verdict bs b 0 (record c { id_zeros = 0; id_index = some 0; id_selected = false })
          here refl (omega arith) small
      ∙ ap
          (λ l.
            if equal (b ∷ bs) l
            then ok (record c { id_zeros = 0; id_index = none; id_selected = true })
            else err bad_id_byte)
          (ap (sequence_from 0) whole ∙ sequence_from-bytes)

  -- The bytes of the sequence themselves.
  pub sequence_bytes-select :
      (c : Card P)
      → c.present ≡ true
      → c.id_index ≡ none
      → c.id_zeros ≡ 0
      → id_write_all c (0 ∷ 0 ∷ id_sequence_bytes)
        ≡ ok (record c { id_zeros = 0; id_index = none; id_selected = true })
  sequence_bytes-select c here idle zeros =
      sequence_selects_card c id_sequence_bytes here idle zeros refl
        (subst AllBytes sequence_from-bytes (sequence_from-AllBytes 0 255))
