-- ===== src/Card/Command.antt =====
-- `command`: the command register of the card.
use sprinter_3c509b.Base.{
  ℕ, ◌*◌, ◌/◌, ◌%◌, true, false, [], ◌∷◌, ltb, ◌==◌, if◌then◌else◌, Result, ok, err, bad_window,
  discard_on_empty, unknown_command,
}
use sprinter_3c509b.Card.{Card, Peers, reset_runtime}
use sprinter_3c509b.Card.Fifo.{deliver_pending}

-- `param & 0x7fc`, of an 11-bit parameter.
abbrev pub dword_aligned : ℕ → ℕ
dword_aligned param = param / 4 * 4

module _ {P : Type 0} (peers : Peers P) where
  -- RX_DISCARD: the frame at the head is dropped, and what it acknowledges is noted.
  unfoldable pub rx_discard : Card P → Result (Card P)
  rx_discard c = elim c.rx_queue [
    | [] ↦ err discard_on_empty
    | q ∷ rest ↦ ok (record c { rx_queue = rest; peer = peers.credit_client_ack q.frame c.peer })
  ]

  -- The operation is the word with its parameter cleared.
  unfoldable pub run_command : Card P → ℕ → ℕ → Result (Card P)
  unfolding rx_discard
  run_command c op param =
      if op == 0x0000
      then ok (reset_runtime c)
      else if op == 0x0800
      then if ltb 6 param then err bad_window else ok (record c { window = param })
      else if op == 0x1800
      then ok (record c { rx_enabled = false })
      else if op == 0x2000
      then ok (deliver_pending (record c { rx_enabled = true }))
      else if op == 0x2800
      then ok (record c { rx_enabled = false; rx_queue = [] })
      else if op == 0x4000
      then rx_discard c
      else if op == 0x4800
      then ok (record c { tx_enabled = true })
      else if op == 0x5000
      then ok (record c { tx_enabled = false })
      else if op == 0x5800
      then ok (record c { tx_enabled = false; tx_fifo = []; tx_expected = 0; tx_status = [] })
      else if op == 0x6800
      then ok c
      else if op == 0x7000
      then ok (record c { intr_mask = param })
      else if op == 0x7800
      then ok (record c { read_zero = param })
      else if op == 0x8000
      then ok (deliver_pending (record c { rx_filter = param }))
      else if op == 0x8800
      then ok (record c { rx_early = dword_aligned param })
      else if op == 0x9000
      then ok (record c { tx_available = dword_aligned param })
      else if op == 0x9800
      then ok (record c { tx_start = dword_aligned param })
      else if op == 0xa800
      then ok (record c { stats_enabled = true })
      else if op == 0xb000
      then ok (record c { stats_enabled = false })
      else err unknown_command

  unfoldable pub command : Card P → ℕ → Result (Card P)
  unfolding run_command
  command c w = run_command c (w / 0x800 % 32 * 0x800) (w % 0x800)
