-- ===== src/Card/Fifo.antt =====
-- The FIFOs of the card: `txByte`, `rxByte`, `advanceDelayed`, `deliverPending`, and how a peer's
-- answers are queued.
pub mod Accept
pub mod Transmit
use sprinter_3c509b.Base.{
  ℕ, zero, suc, ◌+◌, ◌-◌, ◌*◌, ◌/◌, ◌%◌, Bool, true, false, not, ◌&&◌, ◌||◌, Option, none, some,
  List, [], ◌∷◌, ◌++◌, ltb, leb, ◌==◌, if◌then◌else◌, length, take, drop, slice, get_or, Bytes,
  byte_at, word, or_default, Result, ok, err, ◌>>=◌, tx_wrong_window, tx_disabled, tx_preamble,
  tx_padding, rx_wrong_window, rx_empty,
}
use sprinter_3c509b.Card.{Card, Received, TxStatus, TxRecord, Delayed, Reply, Peers, accepts}

-- `{frame, cursor: 0}`
abbrev pub fresh : Bytes → Received
fresh frame = record { frame = frame; cursor = 0; status_error = false }

-- Some byte is not 0: `bytes.some(Boolean)`.
abbrev pub any_nonzero : Bytes → Bool
any_nonzero [] = false
any_nonzero (b ∷ bs) = not (b == 0) || any_nonzero bs

-- The items whose delay is over go to the queue; the others have one poll less.
abbrev pub still_delayed : List Delayed → List Delayed
still_delayed [] = []
still_delayed (item ∷ items) =
    if leb item.polls 1
    then still_delayed items
    else record item { polls = item.polls - 1 } ∷ still_delayed items

abbrev pub ready : List Delayed → List Received
ready [] = []
ready (item ∷ items) = if leb item.polls 1 then fresh item.frame ∷ ready items else ready items

-- The length of the whole entry, once its first two bytes are known.
abbrev pub expected_of : Bytes → ℕ → ℕ
expected_of fifo expected =
    if length fifo == 2
    then 4 + (word (byte_at fifo 1) (byte_at fifo 0) % 0x800 + 3) / 4 * 4
    else expected

module _ {P : Type 0} where
  unfoldable pub deliver_frames : List Bytes → Card P → Card P
  deliver_frames [] c = c
  deliver_frames (frame ∷ frames) c = deliver_frames frames (
      if accepts c frame
      then record c { rx_queue = c.rx_queue ++ (fresh frame ∷ []) }
      else record c { rejected = c.rejected ++ (frame ∷ []) })

  unfoldable pub deliver_pending : Card P → Card P
  unfolding deliver_frames
  deliver_pending c =
      if not c.rx_enabled
      then c
      else deliver_frames c.pending_input (record c { pending_input = [] })

  -- `generated.push(reply)`, and into the queue or the delay line if the card accepts it.
  unfoldable pub queue_reply : Card P → Reply → Card P
  queue_reply c r =
      let d = record c { generated = c.generated ++ (r.frame ∷ []) } in
      if r.lost || not (accepts c r.frame)
      then d
      else if not (r.polls == 0)
      then record d { delayed = c.delayed ++ (record { polls = r.polls; frame = r.frame } ∷ []) }
      else record d {
        rx_queue = c.rx_queue ++ (record (fresh r.frame) { status_error = r.status_error } ∷ []);
      }

  unfoldable pub queue_replies : List Reply → Card P → Card P
  queue_replies [] c = c
  queue_replies (r ∷ rs) c = queue_replies rs (queue_reply c r)

  unfoldable pub advance_delayed : Card P → Card P
  advance_delayed c = record c {
    delayed = still_delayed c.delayed;
    rx_queue = c.rx_queue ++ ready c.delayed;
  }

  unfoldable pub rx_byte : Card P → Result (ℕ × Card P)
  rx_byte c = if not (c.window == 1) then err rx_wrong_window else elim c.rx_queue [
    | [] ↦ err rx_empty
    | q ∷ rest ↦ ok (
      byte_at q.frame q.cursor,
      record c { rx_queue = record q { cursor = q.cursor + 1 } ∷ rest },
    )
  ]

  module _ (peers : Peers P) where
    -- The frame is sent, reported, and looped back where a diagnostic bit says so.
    abbrev pub reported : Card P → Bytes → Bytes → Bytes → Card P
    reported c preamble frame dword_pad =
        let status : TxStatus = record {
          value = or_default c.scenario.tx_completion_status 0xc0;
          remaining = c.scenario.tx_completion_delay_reads;
        } in
        record c {
          transmitted = c.transmitted ++ (frame ∷ []);
          tx_records =
              c.tx_records
              ++ (record { preamble = preamble; dword_pad = dword_pad; frame = frame } ∷ []);
          tx_status =
              if c.scenario.tx_never_complete then c.tx_status else c.tx_status ++ (status ∷ []);
          rx_queue =
              if c.net_diag / 0x1000 % 16 == 0
              then c.rx_queue
              else c.rx_queue ++ (fresh frame ∷ []);
          peer = (peers.respond frame c.peer).0;
        }

    -- The peers answer the frame, and the FIFO is empty again.
    unfoldable pub tx_sent : Card P → Bytes → Bytes → Bytes → Card P
    unfolding queue_replies queue_reply
    tx_sent c preamble frame dword_pad =
        record (queue_replies (peers.respond frame c.peer).1
          (reported c preamble frame dword_pad)) { tx_fifo = []; tx_expected = 0 }

    unfoldable pub tx_checked : Card P → Bytes → Bytes → Bytes → Result (Card P)
    tx_checked c preamble frame dword_pad =
        if not c.tx_enabled
        then err tx_disabled
        else if not (byte_at preamble 2 == 0) || not (byte_at preamble 3 == 0)
        then err tx_preamble
        else if any_nonzero dword_pad
        then err tx_padding
        else ok (tx_sent c preamble frame dword_pad)

    -- The entry in the FIFO is complete: it is taken apart and checked.
    unfoldable pub tx_complete : Card P → Result (Card P)
    unfolding tx_sent tx_checked
    tx_complete c =
        let preamble = take 4 c.tx_fifo in
        let len = word (byte_at preamble 1) (byte_at preamble 0) % 0x800 in
        tx_checked c preamble (slice 4 (4 + len) c.tx_fifo) (drop (4 + len) c.tx_fifo)

    -- The FIFO with the new byte: a complete entry goes out.
    abbrev pub tx_accept : Card P → Bytes → ℕ → Result (Card P)
    tx_accept c fifo expected =
        let d = record c { tx_fifo = fifo; tx_expected = expected } in
        if not (expected == 0) && length fifo == expected then tx_complete d else ok d

    unfoldable pub tx_byte : Card P → ℕ → Result (Card P)
    unfolding tx_complete
    tx_byte c value =
        let fifo = c.tx_fifo ++ (value % 256 ∷ []) in
        if not (c.window == 1)
        then err tx_wrong_window
        else tx_accept c fifo (expected_of fifo c.tx_expected)
