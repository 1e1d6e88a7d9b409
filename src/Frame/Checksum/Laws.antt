-- ===== src/Frame/Checksum/Laws.antt =====
-- The loop of `checksum` against the plain sum of the words: it keeps the sum modulo 65535, with
-- 65535 for a positive multiple.
use sprinter_3c509b.Base.{
  ℕ, zero, suc, ◌+◌, ◌-◌, ◌%◌, ◌≤◌, ◌<◌, ◌≡◌, refl, ◌∙◌, ap, [], ◌∷◌, ◌++◌, arith, length, Bytes,
  word, AllBytes, if◌then◌else◌, ◌==◌, ◌≢◌,
}
use sprinter_3c509b.Frame.Checksum.{add_word, checksum_loop, checksum}

-- The words of a byte array, added up with no wrap.
abbrev pub sum16 : Bytes → ℕ
sum16 [] = 0
sum16 (a ∷ []) = word a 0
sum16 (a ∷ b ∷ rest) = word a b + sum16 rest

abbrev pub fold : ℕ → ℕ
fold n = if n == 0 then 0 else (n - 1) % 65535 + 1

pub fold-le : (n : ℕ) → fold n ≤ 65535
fold-le n = ground arith

add_word-fold : (s w n : ℕ) → s ≡ fold n → w < 65536 → add_word s w ≡ fold (n + w)
add_word-fold s w n e h = ground arith

checksum_loop-fold :
    (bs : Bytes) (s n : ℕ) → s ≡ fold n → AllBytes bs → checksum_loop s bs ≡ fold (n + sum16 bs)
unfolding checksum_loop
checksum_loop-fold [] s n e h = ground arith
checksum_loop-fold (a ∷ []) s n e h = add_word-fold s (word a 0) n e (omega arith)
checksum_loop-fold (a ∷ b ∷ rest) s n e h =
    checksum_loop-fold rest (add_word s (word a b)) (n + word a b)
      (add_word-fold s (word a b) n e (omega arith)) h.1.1
    ∙ ap fold (omega arith)

pub checksum-fold : (bs : Bytes) → AllBytes bs → checksum bs ≡ 65535 - fold (sum16 bs)
unfolding checksum
checksum-fold bs h = ap (λ t. 65535 - t) (checksum_loop-fold bs 0 0 refl h ∙ ap fold (omega arith))

fold_of_pos : (n : ℕ) → n ≢ 0 → fold n ≡ (n - 1) % 65535 + 1
fold_of_pos n h = ground arith

fold-complement : (n t : ℕ) → t ≡ n + (65535 - fold n) → fold t ≡ 65535
fold-complement zero t e = rw e
fold-complement (suc m) t e =
    omega (arith, fold_of_pos t (omega (arith, fold-le (suc m))), fold_of_pos (suc m) (omega arith))

pub checksum-le : (bs : Bytes) → checksum bs ≤ 65535
unfolding checksum
checksum-le bs = omega arith

-- An array whose words add up to `n` plus the checksum of `n` verifies.
pub checksum-zero :
    (bs : Bytes) (n : ℕ) → AllBytes bs → sum16 bs ≡ n + (65535 - fold n) → checksum bs ≡ 0
checksum-zero bs n h e = checksum-fold bs h ∙ omega (arith, fold-complement n (sum16 bs) e)

-- The same where 0 is sent as 65535, as UDP does.
pub checksum-zero_max :
    (bs : Bytes) (n : ℕ) → AllBytes bs → fold n ≡ 65535 → sum16 bs ≡ n + 65535 → checksum bs ≡ 0
checksum-zero_max bs n h f e = checksum-fold bs h ∙ ground arith

-- An array verifies only if its words add up to a positive multiple of 65535.
pub checksum-zero_inv :
    (bs : Bytes) → AllBytes bs → checksum bs ≡ 0 → (sum16 bs ≢ 0) × (sum16 bs % 65535 ≡ 0)
checksum-zero_inv bs h e = ground (arith, checksum-fold bs h)

-- An even number of bytes in front adds its own words.
pub sum16-append :
    (k : ℕ) (xs ys : Bytes) → length xs ≡ k + k → sum16 (xs ++ ys) ≡ sum16 xs + sum16 ys
sum16-append k [] ys h = omega arith
sum16-append zero (a ∷ xs) ys h = absurd (omega arith)
sum16-append (suc k) (a ∷ []) ys h = absurd (omega arith)
sum16-append (suc k) (a ∷ b ∷ xs) ys h = omega (arith, sum16-append k xs ys (omega arith))
