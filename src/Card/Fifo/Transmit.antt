-- ===== src/Card/Fifo/Transmit.antt =====
-- A frame that the program writes into the transmit FIFO goes out as it is.
use sprinter_3c509b.Base.{
  ℕ, zero, suc, ◌+◌, ◌-◌, ◌*◌, ◌/◌, ◌%◌, ◌<◌, ◌≡◌, refl, ◌∙◌, ap, ap₂, true, false, not, ◌||◌, List,
  [], ◌∷◌, ◌++◌, arith, length, length-append, length-replicate, take, drop, slice, replicate,
  take-append_length, drop-append_length, Bytes, AllBytes, AllBytes-append, AllBytes-replicate,
  Bool-cases, inl, inr, byte_at, word, high, low, ◌==◌, if_false, if_true, Result, ok,
}
use sprinter_3c509b.Card.{Card, Reply, Peers, accepts}
use sprinter_3c509b.Card.Fifo.{
  any_nonzero, fresh, reported, queue_reply, queue_replies, tx_sent, tx_checked, tx_complete,
}
use sprinter_3c509b.Card.Fifo.Accept.{
  pad_length, preamble_of, entry, tx_bytes, tx_bytes_complete, tx_bytes-start,
}

any_nonzero-replicate : (n : ℕ) → any_nonzero (replicate n 0) ≡ false
any_nonzero-replicate zero = refl
any_nonzero-replicate (suc n) = any_nonzero-replicate n

module _ {P : Type 0} (peers : Peers P) where
  checked :
      (c : Card P) (preamble frame pad : Bytes)
      → c.tx_enabled ≡ true
      → (not (byte_at preamble 2 == 0) || not (byte_at preamble 3 == 0)) ≡ false
      → any_nonzero pad ≡ false
      → tx_checked peers c preamble frame pad ≡ ok (tx_sent peers c preamble frame pad)
  unfolding tx_checked
  checked c preamble frame pad on zeros none_set =
      if_false (not c.tx_enabled) _ _ (ap not on)
      ∙ if_false (not (byte_at preamble 2 == 0) || not (byte_at preamble 3 == 0)) _ _ zeros
      ∙ if_false (any_nonzero pad) _ _ none_set

  -- A complete entry passes the checks and is sent.
  tx_complete-entry :
      (c : Card P) (frame : Bytes)
      → c.tx_enabled ≡ true
      → length frame < 0x800
      → c.tx_fifo ≡ entry frame
      → tx_complete peers c
        ≡ ok (tx_sent peers c (preamble_of frame) frame (replicate (pad_length (length frame)) 0))
  unfolding tx_complete
  tx_complete-entry c frame on small e =
      ap (λ f. taken c f) e
      ∙ ap₂ (λ f p. tx_checked peers c preamble f p)
          (ap (λ n. slice 4 (4 + n) (entry frame)) len ∙ framed)
          (ap (λ n. drop (4 + n) (entry frame)) len ∙ padded)
      ∙ checked c preamble frame pad on refl (any_nonzero-replicate (pad_length (length frame)))
    where
      preamble : Bytes
      preamble = preamble_of frame

      pad : Bytes
      pad = replicate (pad_length (length frame)) 0

      taken : Card P → Bytes → Result (Card P)
      taken c f =
          let len = word (byte_at (take 4 f) 1) (byte_at (take 4 f) 0) % 0x800 in
          tx_checked peers c (take 4 f) (slice 4 (4 + len) f) (drop (4 + len) f)

      len : word (128 + high (length frame)) (low (length frame)) % 0x800 ≡ length frame
      len = omega arith

      framed : slice 4 (4 + length frame) (entry frame) ≡ frame
      framed = take-append_length (4 + length frame - 4) frame pad (omega arith)

      padded : drop (4 + length frame) (entry frame) ≡ pad
      padded =
          drop-append_length (4 + length frame)
            (low (length frame) ∷ (128 + high (length frame)) ∷ 0 ∷ 0 ∷ frame) pad (omega arith)

  -- The bytes of an entry, written one by one to an idle transmitter, send the frame.
  tx_bytes-entry :
      (c : Card P) (frame : Bytes)
      → c.window ≡ 1
      → c.tx_enabled ≡ true
      → c.tx_fifo ≡ []
      → c.tx_expected ≡ 0
      → AllBytes frame
      → length frame < 0x800
      → (n : ℕ) × (tx_bytes peers c (entry frame)
          ≡ ok (
              tx_sent peers
                (record c { tx_fifo = entry frame; tx_expected = n })
                (preamble_of frame)
                frame
                (replicate (pad_length (length frame)) 0)))
  tx_bytes-entry c frame w on e z b small = (
    expected,
    tx_bytes-start peers c lo hi (0 ∷ 0 ∷ rest) w e z (omega arith) (omega arith)
        ∙ tx_bytes_complete peers 0 (0 ∷ rest) begun w (omega arith)
            (omega (
              arith,
              length-append frame pad,
              length-replicate {0} {A = ℕ} (pad_length (length frame)) 0,
            ))
            (
              omega arith,
              (
                omega arith,
                AllBytes-append frame pad b (AllBytes-replicate (pad_length (length frame))),
              ),
            )
        ∙ tx_complete-entry full frame on small refl,
  )
    where
      lo : ℕ
      lo = low (length frame)

      hi : ℕ
      hi = 128 + high (length frame)

      pad : Bytes
      pad = replicate (pad_length (length frame)) 0

      rest : Bytes
      rest = frame ++ pad

      expected : ℕ
      expected = 4 + (word hi lo % 0x800 + 3) / 4 * 4

      begun : Card P
      begun = record c { tx_fifo = lo ∷ hi ∷ []; tx_expected = expected }

      full : Card P
      full = record begun { tx_fifo = entry frame }

module _ {P : Type 0} where
  queue_reply-keeps :
      (c : Card P) (r : Reply)
      → ((queue_reply c r).transmitted ≡ c.transmitted) × ((queue_reply c r).peer ≡ c.peer)
  unfolding queue_reply
  queue_reply-keeps c r = elim (Bool-cases (r.lost || not (accepts c r.frame))) [
    | inl e ↦ rw e (refl, refl)
    | inr e ↦ rw e (elim (Bool-cases (not (r.polls == 0))) [
      | inl f ↦ rw f (refl, refl)
      | inr f ↦ rw f (refl, refl)
    ])
  ]

  queue_replies-keeps :
      (rs : List Reply) (c : Card P)
      → ((queue_replies rs c).transmitted ≡ c.transmitted) × ((queue_replies rs c).peer ≡ c.peer)
  unfolding queue_replies
  queue_replies-keeps [] c = (refl, refl)
  queue_replies-keeps (r ∷ rs) c = (
    (queue_replies-keeps rs (queue_reply c r)).0 ∙ (queue_reply-keeps c r).0,
    (queue_replies-keeps rs (queue_reply c r)).1 ∙ (queue_reply-keeps c r).1,
  )

  -- An answer that is not lost, and that the card accepts, is received at once.
  queue_reply-arrives :
      (c : Card P) (r : Reply)
      → accepts c r.frame ≡ true
      → r.lost ≡ false
      → r.polls ≡ 0
      → (queue_reply c r).rx_queue
        ≡ c.rx_queue ++ (record (fresh r.frame) { status_error = r.status_error } ∷ [])
  unfolding queue_reply
  queue_reply-arrives c r accepted arrives now = rw arrives (rw accepted (rw now refl))

module _ {P : Type 0} (peers : Peers P) where
  -- The preamble, the bytes of a frame and the padding, written one by one to the FIFO of an idle,
  -- enabled transmitter in window 1, raise no fault: the frame is added to what the card
  -- transmitted, exactly as written, the peers take it, and the FIFO is empty again. The frame has
  -- fewer than 2048 bytes, and the preamble is its length with bit 15 set.
  pub transmit_frame :
      (c : Card P) (frame : Bytes)
      → c.window ≡ 1
      → c.tx_enabled ≡ true
      → c.tx_fifo ≡ []
      → c.tx_expected ≡ 0
      → AllBytes frame
      → length frame < 0x800
      → (d : Card P) × (tx_bytes peers c (entry frame) ≡ ok d)
        × (d.transmitted ≡ c.transmitted ++ (frame ∷ []))
        × (d.peer ≡ (peers.respond frame c.peer).0)
        × (d.tx_fifo ≡ [])
        × (d.tx_expected ≡ 0)
  unfolding tx_sent
  transmit_frame c frame w on e z b small =
      let (n, written) = tx_bytes-entry peers c frame w on e z b small in
      let answer = peers.respond frame c.peer in
      (
        tx_sent peers (record c { tx_fifo = entry frame; tx_expected = n }) (preamble_of frame)
            frame (replicate (pad_length (length frame)) 0),
        written,
        (queue_replies-keeps answer.1 _).0,
        (queue_replies-keeps answer.1 _).1,
        refl,
        refl,
      )

  -- A frame that the peers answer with one reply: where that is not lost, and the card accepts it,
  -- it is what the card receives next.
  pub transmit_frame-answers :
      (c : Card P) (frame : Bytes)
      → c.window ≡ 1
      → c.tx_enabled ≡ true
      → c.tx_fifo ≡ []
      → c.tx_expected ≡ 0
      → AllBytes frame
      → length frame < 0x800
      → (r : Reply) → (peers.respond frame c.peer).1 ≡ r ∷ []
      → accepts c r.frame ≡ true
      → r.lost ≡ false
      → r.polls ≡ 0
      → c.net_diag ≡ 0
      → (d : Card P) × (tx_bytes peers c (entry frame) ≡ ok d)
        × (d.transmitted ≡ c.transmitted ++ (frame ∷ []))
        × (d.peer ≡ (peers.respond frame c.peer).0)
        × (d.rx_queue
            ≡ c.rx_queue ++ (record (fresh r.frame) { status_error = r.status_error } ∷ []))
  unfolding tx_sent queue_replies accepts
  transmit_frame-answers c frame w on e z b small r answered accepted arrives now plain =
      let (n, written) = tx_bytes-entry peers c frame w on e z b small in
      let full : Card P = record c { tx_fifo = entry frame; tx_expected = n } in
      let pad = replicate (pad_length (length frame)) 0 in
      let sent = reported peers full (preamble_of frame) frame pad in
      (
        tx_sent peers full (preamble_of frame) frame pad,
        written,
        (queue_replies-keeps (peers.respond frame c.peer).1 sent).0,
        (queue_replies-keeps (peers.respond frame c.peer).1 sent).1,
        ap (λ rs. (queue_replies rs sent).rx_queue) answered
            ∙ (queue_reply-arrives sent r accepted arrives now
                ∙ ap (λ q. q ++ (record (fresh r.frame) { status_error = r.status_error } ∷ []))
                    (if_true (c.net_diag / 0x1000 % 16 == 0) c.rx_queue _
                      (ap (λ n. n / 0x1000 % 16 == 0) plain))),
      )
