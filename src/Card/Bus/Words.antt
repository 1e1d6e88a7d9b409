-- ===== src/Card/Bus/Words.antt =====
-- Two byte accesses of the 8-bit bus make one word access, the low byte first.
use sprinter_3c509b.Base.{
  ℕ, ◌+◌, ◌-◌, ◌%◌, ◌≤◌, ◌<◌, ◌≡◌, ◌≢◌, refl, ◌∙◌, ap, sym, bit_and, true, not, ◌&&◌, inl, inr,
  Option, none, some, [], ◌∷◌, arith, word, high, low, ltb, ◌==◌, if_false, if_true, eq→==, if_both,
  Bool-cases, Result, ok, err, ◌>>=◌, high_without_low,
}
use mathlib.Core.Path.{subst}
use sprinter_3c509b.Card.{Card, Peers, ByteMap, lookup, insert, remove, link_up}
use sprinter_3c509b.Card.Fifo.{advance_delayed}
use sprinter_3c509b.Card.Bus.{
  read_word, read_window, media_status, read_high, read_low, read_byte, write_word, write_high,
  write_byte,
}

lookup-insert_self : (k v : ℕ) (m : ByteMap) → lookup k (insert k v m) ≡ some v
lookup-insert_self k v m = if_true (k == k) _ _ (eq→== k k refl)

remove-twice : (k : ℕ) (m : ByteMap) → remove k (remove k m) ≡ remove k m
remove-twice k [] = refl
remove-twice k ((j, v) ∷ m) = elim (Bool-cases (j == k)) [
  | inl e ↦ rw e (remove-twice k m)
  | inr e ↦ rw e (rw e (ap (◌∷◌ (j, v)) (remove-twice k m)))
]

remove-insert : (k v : ℕ) (m : ByteMap) → remove k (insert k v m) ≡ remove k m
remove-insert k v m = if_true (k == k) _ _ (eq→== k k refl) ∙ remove-twice k m

-- An even register that no rule of `readByte` and `writeByte` takes before the word accesses:
-- not in the FIFO window's data and status bytes, the station address or the statistics.
pub record IsPlain (w offset : ℕ) : Type 0 where
  pub even : offset % 2 ≡ 0
  pub fifo : w ≡ 1 → (4 ≤ offset) × (offset ≢ 0x0a)
  pub station : w ≡ 2 → 6 ≤ offset
  pub statistics : w ≡ 6 → 14 ≤ offset

module _ {P : Type 0} (peers : Peers P) where
  write_byte-low :
      (c : Card P) (offset value : ℕ)
      → c.active ≡ true
      → IsPlain c.window offset
      → write_byte peers c offset value
        ≡ ok (record c { word_write_low = insert offset (low value) c.word_write_low })
  unfolding write_byte
  write_byte-low c offset value on v =
      if_false (not c.active) _ _ (ap not on)
      ∙ if_false (c.window == 1 && offset == 0) _ _ (ground (arith, v.fifo))
      ∙ if_false (c.window == 1 && ltb offset 4) _ _ (ground (arith, v.fifo))
      ∙ if_false (c.window == 1 && offset == 0x0b) _ _ (ground (arith, v.even))
      ∙ if_false (c.window == 2 && ltb offset 6) _ _ (ground (arith, v.station))
      ∙ if_false (offset % 2 == 1) _ _ (ground (arith, v.even))

  write_byte-high :
      (c : Card P) (offset value : ℕ)
      → c.active ≡ true
      → IsPlain c.window offset
      → write_byte peers c (offset + 1) value ≡ write_high peers c offset value
  unfolding write_byte
  write_byte-high c offset value on v =
      if_false (not c.active) _ _ (ap not on)
      ∙ if_false (c.window == 1 && offset + 1 == 0) _ _ (ground (arith, v.fifo))
      ∙ if_false (c.window == 1 && ltb (offset + 1) 4) _ _ (ground (arith, v.fifo))
      ∙ if_false (c.window == 1 && offset + 1 == 0x0b) _ _ (ground (arith, v.fifo))
      ∙ if_false (c.window == 2 && ltb (offset + 1) 6) _ _ (ground (arith, v.station, v.even))
      ∙ if_true ((offset + 1) % 2 == 1) _ _ (ground (arith, v.even))
      ∙ ap (λ k. write_high peers c k value) back
    where
      back : offset + 1 - 1 ≡ offset
      back = omega arith

  write_high-found :
      (c : Card P) (even value v : ℕ)
      → lookup even c.word_write_low ≡ some v
      → write_high peers c even value
        ≡ write_word peers
            (record c { word_write_low = remove even c.word_write_low })
            even
            (word (low value) v)
  unfolding write_high
  write_high-found c even value v h = ap (λ o. found o) h
    where
      found : Option ℕ → Result (Card P)
      found o = elim o [
        | none ↦ err high_without_low
        | some v ↦
            write_word peers (record c { word_write_low = remove even c.word_write_low }) even
              (word (low value) v)
      ]

  -- On an active card, the low byte and then the high byte of a value, written to a plain even
  -- register and its odd neighbour, write that word to the register; nothing of the low byte is
  -- left behind. Both bytes are below 256.
  pub write_bytes-word :
      (c : Card P) (offset lo hi : ℕ)
      → c.active ≡ true
      → IsPlain c.window offset
      → lo < 256
      → hi < 256
      → (write_byte peers c offset lo >>= λ d. write_byte peers d (offset + 1) hi)
        ≡ write_word peers
            (record c { word_write_low = remove offset c.word_write_low })
            offset
            (word hi lo)
  write_bytes-word c offset lo hi on v hl hh =
      ap (λ r. r >>= λ d. write_byte peers d (offset + 1) hi) (write_byte-low c offset lo on v)
      ∙ write_byte-high kept offset hi on v
      ∙ write_high-found kept offset hi (low lo)
          (lookup-insert_self offset (low lo) c.word_write_low)
      ∙ ap (λ m. write_word peers (record c { word_write_low = m }) offset (word (low hi) (low lo)))
          (remove-insert offset (low lo) c.word_write_low)
      ∙ ap (write_word peers (record c { word_write_low = remove offset c.word_write_low }) offset)
          joined
    where
      kept : Card P
      kept = record c { word_write_low = insert offset (low lo) c.word_write_low }

      joined : word (low hi) (low lo) ≡ word hi lo
      joined = omega arith

module _ {P : Type 0} where
  -- Reading a register leaves the window, the active flag and the kept high bytes alone.
  record Keeps (c : Card P) (r : ℕ × Card P) : Type 0 where
    active : r.1.active ≡ c.active
    window : r.1.window ≡ c.window
    high_bytes : r.1.word_read_high ≡ c.word_read_high

  keep : (c : Card P) (w : ℕ) → Keeps c (w, c)
  keep c w = record { active = refl; window = refl; high_bytes = refl }

  advance-Keeps : (c : Card P) (w : ℕ) → Keeps c (w, advance_delayed c)
  unfolding advance_delayed
  advance-Keeps c w = record { active = refl; window = refl; high_bytes = refl }

  media_status-Keeps : (c : Card P) → Keeps c (media_status c)
  unfolding media_status link_up
  media_status-Keeps c =
      if_both (Keeps c) (bit_and c.media_writable 0x80 == 0) (keep c _)
        (record { active = refl; window = refl; high_bytes = refl })

  read_window-Keeps : (c : Card P) (w offset : ℕ) → Keeps c (read_window c w offset)
  unfolding read_window
  read_window-Keeps c w offset = if_both (Keeps c) (w == 0) (keep c _) (
      if_both (Keeps c) (w == 1)
        (if_both (Keeps c) (offset == 0x08) (advance-Keeps c _) (
          if_both (Keeps c) (offset == 0x0c)
            (record { active = refl; window = refl; high_bytes = refl }) (keep c _)))
        (if_both (Keeps c) (w == 2) (keep c _) (
          if_both (Keeps c) (w == 3) (keep c _) (
            if_both (Keeps c) (w == 4)
              (if_both (Keeps c) (offset == 0x06) (keep c _)
                (if_both (Keeps c) (offset == 0x0a) (media_status-Keeps c) (keep c _)))
              (if_both (Keeps c) (w == 5) (keep c _) (keep c _))))))

  read_word-Keeps : (c : Card P) (offset : ℕ) → Keeps c (read_word c offset)
  unfolding read_word
  read_word-Keeps c offset =
      if_both (Keeps c) (offset == 0x0e) (keep c _) (read_window-Keeps c c.window offset)

  read_byte-low :
      (c : Card P) (offset : ℕ)
      → c.active ≡ true
      → IsPlain c.window offset
      → read_byte c offset ≡ ok (read_low c offset)
  unfolding read_byte
  read_byte-low c offset on v =
      if_false (not c.active) _ _ (ap not on)
      ∙ if_false (c.window == 1 && offset == 0) _ _ (ground (arith, v.fifo))
      ∙ if_false (c.window == 1 && ltb offset 4) _ _ (ground (arith, v.fifo))
      ∙ if_false (c.window == 1 && offset == 0x0b) _ _ (ground (arith, v.even))
      ∙ if_false (c.window == 2 && ltb offset 6) _ _ (ground (arith, v.station))
      ∙ if_false (c.window == 6 && ltb offset 14) _ _ (ground (arith, v.statistics))
      ∙ if_false (offset % 2 == 1) _ _ (ground (arith, v.even))

  read_byte-high :
      (c : Card P) (offset : ℕ)
      → c.active ≡ true
      → IsPlain c.window offset
      → read_byte c (offset + 1) ≡ read_high c offset
  unfolding read_byte
  read_byte-high c offset on v =
      if_false (not c.active) _ _ (ap not on)
      ∙ if_false (c.window == 1 && offset + 1 == 0) _ _ (ground (arith, v.fifo))
      ∙ if_false (c.window == 1 && ltb (offset + 1) 4) _ _ (ground (arith, v.fifo))
      ∙ if_false (c.window == 1 && offset + 1 == 0x0b) _ _ (ground (arith, v.fifo))
      ∙ if_false (c.window == 2 && ltb (offset + 1) 6) _ _ (ground (arith, v.station, v.even))
      ∙ if_false (c.window == 6 && ltb (offset + 1) 14) _ _ (ground (arith, v.statistics, v.even))
      ∙ if_true ((offset + 1) % 2 == 1) _ _ (ground (arith, v.even))
      ∙ ap (read_high c) back
    where
      back : offset + 1 - 1 ≡ offset
      back = omega arith

  read_high-found :
      (c : Card P) (even v : ℕ)
      → lookup even c.word_read_high ≡ some v
      → read_high c even ≡ ok (v, record c { word_read_high = remove even c.word_read_high })
  unfolding read_high
  read_high-found c even v h = ap (λ o. found o) h
    where
      found : Option ℕ → Result (ℕ × Card P)
      found o = elim o [
        | none ↦ err high_without_low
        | some v ↦ ok (v, record c { word_read_high = remove even c.word_read_high })
      ]

  -- On an active card, a plain even register and then its odd neighbour read the low and the high
  -- byte of one word: that of a single reading of the register. No high byte is left behind.
  pub read_bytes-word :
      (c : Card P) (offset : ℕ)
      → c.active ≡ true
      → IsPlain c.window offset
      → let (w, d) = read_word c offset in
        (e : Card P) × (read_byte c offset ≡ ok (low w, e))
        × (read_byte e (offset + 1)
            ≡ ok (low (high w), record d { word_read_high = remove offset c.word_read_high }))
  unfolding read_low
  read_bytes-word c offset on v =
      let (w, d) = read_word c offset in
      let e = record d { word_read_high = insert offset (low (high w)) d.word_read_high } in
      let k = read_word-Keeps c offset in
      (
        e,
        read_byte-low c offset on v,
        read_byte-high e offset (k.active ∙ on) (subst (λ x. IsPlain x offset) (sym k.window) v)
            ∙ read_high-found e offset (low (high w))
                (lookup-insert_self offset (low (high w)) d.word_read_high)
            ∙ ap (λ m. ok (low (high w), record d { word_read_high = m }))
                (remove-insert offset (low (high w)) d.word_read_high
                  ∙ ap (remove offset) k.high_bytes),
      )
