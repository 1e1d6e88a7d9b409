-- ===== src/Card/Fifo/Accept.antt =====
-- What the program writes for a frame, and what `txByte` makes of it, byte by byte.
use sprinter_3c509b.Base.{
  ℕ, suc, ◌+◌, ◌-◌, ◌*◌, ◌/◌, ◌%◌, ◌≤◌, ◌<◌, ◌≡◌, refl, ◌∙◌, ap, true, false, not, ◌&&◌, [], ◌∷◌,
  ◌++◌, arith, append_assoc, length, length-append, replicate, Bytes, AllBytes, word, high, low,
  ◌==◌, if_false, if_true, not-eq_false, ne→==, Result, ok, err, ◌>>=◌,
}
use sprinter_3c509b.Card.{Card, Peers}
use sprinter_3c509b.Card.Fifo.{expected_of, tx_complete, tx_accept, tx_byte}

-- The padding that brings a length to a multiple of 4.
abbrev pub pad_length : ℕ → ℕ
pad_length n = (n + 3) / 4 * 4 - n

-- What the program writes for a frame: the preamble, whose second byte has bit 15 of the word set
-- above the length, the frame and the padding.
abbrev pub preamble_of : Bytes → Bytes
preamble_of frame = low (length frame) ∷ (128 + high (length frame)) ∷ 0 ∷ 0 ∷ []

abbrev pub entry : Bytes → Bytes
entry frame = preamble_of frame ++ (frame ++ replicate (pad_length (length frame)) 0)

is_full :
    (n expected : ℕ)
    → (0 < expected) × (n ≡ expected)
    → (not (expected == 0) && n == expected) ≡ true
is_full n expected h = ground arith

not_full : (n expected : ℕ) → n < expected → (not (expected == 0) && n == expected) ≡ false
not_full n expected h = ground arith

module _ {P : Type 0} (peers : Peers P) where
  abbrev pub tx_bytes : Card P → Bytes → Result (Card P)
  tx_bytes c [] = ok c
  tx_bytes c (b ∷ bs) = tx_byte peers c b >>= λ d. tx_bytes d bs

  tx_accept-more :
      (c : Card P) (fifo : Bytes) (expected : ℕ)
      → (not (expected == 0) && length fifo == expected) ≡ false
      → tx_accept peers c fifo expected ≡ ok (record c { tx_fifo = fifo; tx_expected = expected })
  tx_accept-more c fifo expected h = if_false (not (expected == 0) && length fifo == expected) _ _ h

  tx_accept_complete :
      (c : Card P) (fifo : Bytes) (expected : ℕ)
      → (not (expected == 0) && length fifo == expected) ≡ true
      → tx_accept peers c fifo expected
        ≡ tx_complete peers (record c { tx_fifo = fifo; tx_expected = expected })
  tx_accept_complete c fifo expected h =
      if_true (not (expected == 0) && length fifo == expected) _ _ h

  tx_byte-accept :
      (c : Card P) (value : ℕ)
      → c.window ≡ 1
      → value < 256
      → tx_byte peers c value
        ≡ tx_accept peers c
            (c.tx_fifo ++ (value ∷ []))
            (expected_of (c.tx_fifo ++ (value ∷ [])) c.tx_expected)
  unfolding tx_byte
  tx_byte-accept c value w h =
      if_false (not (c.window == 1)) _ _ (not-eq_false c.window 1 w)
      ∙ ap
          (λ v.
            tx_accept peers c (c.tx_fifo ++ (v ∷ []))
              (expected_of (c.tx_fifo ++ (v ∷ [])) c.tx_expected))
          small
    where
      small : value % 256 ≡ value
      small = omega arith

  -- A byte behind the first two leaves the expected length.
  tx_byte-later :
      (c : Card P) (value : ℕ)
      → c.window ≡ 1
      → 2 ≤ length c.tx_fifo
      → value < 256
      → tx_byte peers c value ≡ tx_accept peers c (c.tx_fifo ++ (value ∷ [])) c.tx_expected
  tx_byte-later c value w long h =
      tx_byte-accept c value w h
      ∙ ap (tx_accept peers c (c.tx_fifo ++ (value ∷ []))) (
          if_false (length (c.tx_fifo ++ (value ∷ [])) == 2) _ _ (
            ne→== (length (c.tx_fifo ++ (value ∷ []))) 2
              (omega (arith, length-append c.tx_fifo (value ∷ [])))))

  -- The bytes up to the expected length complete the entry.
  pub tx_bytes_complete :
      (b : ℕ) (bs : Bytes) (c : Card P)
      → c.window ≡ 1
      → 2 ≤ length c.tx_fifo
      → c.tx_expected ≡ length c.tx_fifo + suc (length bs)
      → (b < 256) × AllBytes bs
      → tx_bytes c (b ∷ bs) ≡ tx_complete peers (record c { tx_fifo = c.tx_fifo ++ (b ∷ bs) })
  tx_bytes_complete b [] c w long e h =
      ap (λ r. r >>= λ d. ok d) (tx_byte-later c b w long h.0 ∙ accepted)
      ∙ bind-ok (tx_complete peers (record c { tx_fifo = c.tx_fifo ++ (b ∷ []) }))
    where
      bind-ok : (r : Result (Card P)) → (r >>= λ d. ok d) ≡ r
      bind-ok (ok d) = refl
      bind-ok (err f) = refl

      accepted :
          tx_accept peers c (c.tx_fifo ++ (b ∷ [])) c.tx_expected
          ≡ tx_complete peers (record c { tx_fifo = c.tx_fifo ++ (b ∷ []) })
      accepted = tx_accept_complete c (c.tx_fifo ++ (b ∷ [])) c.tx_expected (
          is_full (length (c.tx_fifo ++ (b ∷ []))) c.tx_expected
            (omega (arith, length-append c.tx_fifo (b ∷ []))))
  tx_bytes_complete b (x ∷ xs) c w long e h =
      ap (λ r. r >>= λ d. tx_bytes d (x ∷ xs)) (tx_byte-later c b w long h.0 ∙ accepted)
      ∙ tx_bytes_complete x xs (record c { tx_fifo = c.tx_fifo ++ (b ∷ []) }) w
          (omega (arith, length-append c.tx_fifo (b ∷ [])))
          (omega (arith, e, length-append c.tx_fifo (b ∷ []))) h.1
      ∙ ap (λ f. tx_complete peers (record c { tx_fifo = f }))
          (append_assoc c.tx_fifo (b ∷ []) (x ∷ xs))
    where
      accepted :
          tx_accept peers c (c.tx_fifo ++ (b ∷ [])) c.tx_expected
          ≡ ok (record c { tx_fifo = c.tx_fifo ++ (b ∷ []) })
      accepted = tx_accept-more c (c.tx_fifo ++ (b ∷ [])) c.tx_expected (
          not_full (length (c.tx_fifo ++ (b ∷ []))) c.tx_expected
            (omega (arith, length-append c.tx_fifo (b ∷ []))))

  -- The first two bytes set the expected length.
  pub tx_bytes-start :
      (c : Card P) (lo hi : ℕ) (rest : Bytes)
      → c.window ≡ 1
      → c.tx_fifo ≡ []
      → c.tx_expected ≡ 0
      → lo < 256
      → hi < 256
      → tx_bytes c (lo ∷ hi ∷ rest)
        ≡ tx_bytes
            (record c {
              tx_fifo = lo ∷ hi ∷ [];
              tx_expected = 4 + (word hi lo % 0x800 + 3) / 4 * 4;
            })
            rest
  tx_bytes-start c lo hi rest w e z hl hh =
      ap (λ d. tx_bytes d (lo ∷ hi ∷ rest)) (λ i. record c { tx_fifo = e i; tx_expected = z i })
      ∙ ap (λ r. r >>= λ d. tx_bytes d (hi ∷ rest))
          (tx_byte-accept (record c { tx_fifo = []; tx_expected = 0 }) lo w hl)
      ∙ ap (λ r. r >>= λ d. tx_bytes d rest)
          (tx_byte-accept (record c { tx_fifo = lo ∷ []; tx_expected = 0 }) hi w hh
            ∙ tx_accept-more (record c { tx_fifo = lo ∷ []; tx_expected = 0 }) (lo ∷ hi ∷ [])
                (4 + (word hi lo % 0x800 + 3) / 4 * 4) (two-ne ((word hi lo % 0x800 + 3) / 4 * 4)))
    where
      two-ne : (n : ℕ) → (not (4 + n == 0) && 2 == 4 + n) ≡ false
      two-ne n = ground arith
