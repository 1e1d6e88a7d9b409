-- ===== src/Card/Bus.antt =====
-- The register window of the card: `readWord`, `writeWord`, `readByte` and `writeByte`.
pub mod Words
use sprinter_3c509b.Base.{
  ℕ, zero, suc, ◌+◌, ◌-◌, ◌*◌, ◌/◌, ◌%◌, Bool, true, false, not, ◌&&◌, ◌||◌, Option, none, some,
  List, [], ◌∷◌, ◌++◌, map, ltb, leb, ◌==◌, if◌then◌else◌, length, get_or, set, byte_at, high, low,
  word, or_default, bit_and, bit_or, Result, ok, err, ◌>>=◌, wrong_fifo_offset, unknown_word_write,
  high_without_low,
}
use sprinter_3c509b.Card.{Card, Received, TxStatus, Peers, lookup, insert, remove, link_up}
use sprinter_3c509b.Card.Fifo.{advance_delayed, rx_byte, tx_byte}
use sprinter_3c509b.Card.Command.{command}

-- RX_STATUS: the length of the frame at the head, and whether it is damaged.
abbrev pub rx_status : List Received → ℕ
rx_status [] = 0
rx_status (q ∷ rest) = bit_or (length q.frame) (if q.status_error then 0x4000 else 0)

-- The head of `txStatus`: its value, or 0 while it is not due.
abbrev pub status_at_head : List TxStatus → ℕ × List TxStatus
status_at_head [] = (0, [])
status_at_head (s ∷ rest) =
    if s.remaining == 0
    then (s.value, s ∷ rest)
    else (0, record s { remaining = s.remaining - 1 } ∷ rest)

module _ {P : Type 0} where
  -- TX_FREE, from the number of its readings, this one included.
  abbrev pub tx_free : Card P → ℕ → ℕ
  tx_free c reads =
      let delay = c.scenario.tx_free_delay_reads in
      if c.scenario.tx_free_blocked
      then 0
      else if not (delay == 0) && leb reads delay
      then 0
      else 0x2000

  -- Window 4, MEDIA_STATUS: the link is looked at only where link beat is enabled.
  unfoldable pub media_status : Card P → ℕ × Card P
  media_status c =
      let word_of =
        λ (l : Bool). bit_or (bit_or 0xa000 c.media_writable) (if l then 0x800 else 0) in
      let (up, d) = link_up c in
      if bit_and c.media_writable 0x80 == 0 then (word_of false, c) else (word_of up, d)

  unfoldable pub read_window : Card P → ℕ → ℕ → ℕ × Card P
  unfolding media_status
  read_window c w offset =
      if w == 0
      then (
        if offset == 0 then get_or c.eeprom 7 0 else if offset == 2 then get_or c.eeprom 3 0 else 0,
        c,
      )
      else if w == 1
      then if offset == 0x08
        then (rx_status (advance_delayed c).rx_queue, advance_delayed c)
        else if offset == 0x0c
        then (tx_free c (c.tx_free_reads + 1), record c { tx_free_reads = c.tx_free_reads + 1 })
        else (0, c)
      else if w == 2
      then (
        if ltb offset 6 && offset % 2 == 0
            then word (byte_at c.station (offset + 1)) (byte_at c.station offset)
            else 0,
        c,
      )
      else if w == 3
      then (if offset == 0x0a then or_default c.scenario.rx_fifo_bytes 0x4000 else 0, c)
      else if w == 4
      then if offset == 0x06
        then (
          bit_or (bit_or (bit_or c.net_diag 0x0004) (if c.tx_enabled then 0x800 else 0))
              (if c.rx_enabled then 0x400 else 0),
          c,
        )
        else if offset == 0x0a
        then media_status c
        else (0, c)
      else if w == 5
      then (
        if offset == 0
            then c.tx_start
            else if offset == 2
            then c.tx_available
            else if offset == 6
            then c.rx_early
            else if offset == 8
            then c.rx_filter
            else if offset == 0x0a
            then c.intr_mask
            else if offset == 0x0c
            then c.read_zero
            else 0,
        c,
      )
      else (0, c)

  unfoldable pub read_word : Card P → ℕ → ℕ × Card P
  unfolding read_window
  read_word c offset =
      if offset == 0x0e then (c.window * 0x2000, c) else read_window c c.window offset

  -- TX_STATUS: the stale statuses of the scenario come first into the queue, once.
  unfoldable pub read_tx_status : Card P → ℕ × Card P
  read_tx_status c =
      let stale =
        map (λ v. record { value = v % 256; remaining = 0 }) c.scenario.tx_stale_statuses in
      let queue = if c.tx_stale_injected then c.tx_status else c.tx_status ++ stale in
      let (value, queue') = status_at_head queue in
      (
        value,
        record c {
          tx_status_reads = c.tx_status_reads + 1;
          tx_stale_injected = true;
          tx_status = queue';
        },
      )

  -- The high byte that the reading of the low one kept.
  unfoldable pub read_high : Card P → ℕ → Result (ℕ × Card P)
  read_high c even = elim (lookup even c.word_read_high) [
    | none ↦ err high_without_low
    | some v ↦ ok (v, record c { word_read_high = remove even c.word_read_high })
  ]

  unfoldable pub read_low : Card P → ℕ → ℕ × Card P
  unfolding read_word
  read_low c offset =
      let (w, d) = read_word c offset in
      (low w, record d { word_read_high = insert offset (low (high w)) d.word_read_high })

  unfoldable pub read_byte : Card P → ℕ → Result (ℕ × Card P)
  unfolding read_tx_status read_high read_low
  read_byte c offset =
      if not c.active
      then ok (0xff, c)
      else if c.window == 1 && offset == 0
      then rx_byte c
      else if c.window == 1 && ltb offset 4
      then err wrong_fifo_offset
      else if c.window == 1 && offset == 0x0b
      then ok (read_tx_status c)
      else if c.window == 2 && ltb offset 6
      then ok (byte_at c.station offset, c)
      else if c.window == 6 && ltb offset 14
      then ok (0, c)
      else if offset % 2 == 1
      then read_high c (offset - 1)
      else ok (read_low c offset)

  module _ (peers : Peers P) where
    unfoldable pub write_word : Card P → ℕ → ℕ → Result (Card P)
    write_word c offset value =
        if offset == 0x0e
        then command peers c value
        else if c.window == 4 && offset == 0x06
        then ok (record c { net_diag = value / 0x1000 % 16 * 0x1000 })
        else if c.window == 4 && offset == 0x0a
        then ok (record c { media_writable = bit_and value 0xcc })
        else if c.window == 4 && offset == 0x04
        then ok c
        else err unknown_word_write

    -- The high byte completes the word whose low byte was kept.
    unfoldable pub write_high : Card P → ℕ → ℕ → Result (Card P)
    unfolding write_word
    write_high c even value = elim (lookup even c.word_write_low) [
      | none ↦ err high_without_low
      | some v ↦
          write_word (record c { word_write_low = remove even c.word_write_low }) even
            (word (low value) v)
    ]

    unfoldable pub write_byte : Card P → ℕ → ℕ → Result (Card P)
    unfolding write_high
    write_byte c offset value =
        if not c.active
        then ok c
        else if c.window == 1 && offset == 0
        then tx_byte peers c value
        else if c.window == 1 && ltb offset 4
        then err wrong_fifo_offset
        else if c.window == 1 && offset == 0x0b
        then ok (elim c.tx_status [
          | [] ↦ c
          | s ∷ rest ↦ record c { tx_status = rest; tx_status_pops = c.tx_status_pops + 1 }
        ])
        else if c.window == 2 && ltb offset 6
        then ok (record c { station = set c.station offset (low value) })
        else if offset % 2 == 1
        then write_high c (offset - 1) value
        else ok (record c { word_write_low = insert offset (low value) c.word_write_low })
