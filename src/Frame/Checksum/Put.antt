-- ===== src/Frame/Checksum/Put.antt =====
-- What `putChecksum` writes makes the range that it covers verify.
use sprinter_3c509b.Base.{
  ℕ, zero, suc, ◌+◌, ◌-◌, ◌/◌, ◌%◌, ◌≤◌, ◌<◌, ◌≡◌, refl, sym, ◌∙◌, ap, ap₂, [], ◌∷◌, arith, Bytes,
  AllBytes, set, length, length-set, length-take, length-drop, take, drop, slice, take_all,
  AllBytes-set, AllBytes-take, AllBytes-drop,
}
use sprinter_3c509b.Frame.Checksum.{put_word, checksum, put_checksum}
use sprinter_3c509b.Frame.Checksum.Laws.{sum16, checksum-zero, checksum-fold, checksum-le}

drop-set : (o i v : ℕ) (xs : Bytes) → drop o (set xs (o + i) v) ≡ set (drop o xs) i v
drop-set zero i v xs = ap (λ j. set xs j v) (omega arith)
drop-set (suc o) i v [] = refl
drop-set (suc o) i v (x ∷ xs) = ap (λ j. drop (suc o) (set (x ∷ xs) j v)) shift ∙ drop-set o i v xs
  where
    shift : suc o + i ≡ suc (o + i)
    shift = omega arith

take-set : (n i v : ℕ) (xs : Bytes) → take n (set xs i v) ≡ set (take n xs) i v
take-set zero i v xs = refl
take-set (suc n) i v [] = refl
take-set (suc n) zero v (x ∷ xs) = refl
take-set (suc n) (suc i) v (x ∷ xs) = ap (◌∷◌ x) (take-set n i v xs)

abbrev double : ℕ → ℕ
double zero = 0
double (suc k) = suc (suc (double k))

double-eq : (k : ℕ) → double k ≡ k + k
double-eq zero = refl
double-eq (suc k) = omega (arith, double-eq k)

put_word-cons_cons :
    (f w a b : ℕ) (xs : Bytes) → put_word (suc (suc f)) w (a ∷ b ∷ xs) ≡ a ∷ b ∷ put_word f w xs
put_word-cons_cons f w a b xs = ap (λ j. set (a ∷ b ∷ set xs f (w / 256)) j (w % 256)) shift
  where
    shift : suc (suc f) + 1 ≡ suc (suc (f + 1))
    shift = omega arith

-- A word at an even place adds its value to the sum.
sum16-put_word :
    (k w : ℕ) (xs : Bytes)
    → double k + 2 ≤ length xs
    → sum16 (put_word (double k) w xs) ≡ sum16 (put_word (double k) 0 xs) + w
sum16-put_word k w [] h = absurd (omega arith)
sum16-put_word k w (a ∷ []) h = absurd (omega arith)
sum16-put_word zero w (a ∷ b ∷ xs) h = omega arith
sum16-put_word (suc k) w (a ∷ b ∷ xs) h =
    rw (put_word-cons_cons (double k) w a b xs, put_word-cons_cons (double k) 0 a b xs)
      (omega (arith, sum16-put_word k w xs (omega arith)))

slice-put_word :
    (o n f w : ℕ) (xs : Bytes)
    → slice o (o + n) (put_word (o + f) w xs) ≡ put_word f w (slice o (o + n) xs)
slice-put_word o n f w xs =
    ap (λ j. slice o (o + n) (set (set xs (o + f) (w / 256)) j (w % 256))) shift
    ∙ ap (take (o + n - o)) (drop-set o (f + 1) (w % 256) (set xs (o + f) (w / 256)))
    ∙ take-set (o + n - o) (f + 1) (w % 256) (drop o (set xs (o + f) (w / 256)))
    ∙ ap (λ t. set (take (o + n - o) t) (f + 1) (w % 256)) (drop-set o f (w / 256) xs)
    ∙ ap (λ t. set t (f + 1) (w % 256)) (take-set (o + n - o) f (w / 256) (drop o xs))
  where
    shift : o + f + 1 ≡ o + (f + 1)
    shift = omega arith

length-slice : (o n : ℕ) (xs : Bytes) → o + n ≤ length xs → length (slice o (o + n) xs) ≡ n
length-slice o n xs h = omega (arith, length-take {0} (o + n - o) (drop o xs), length-drop {0} o xs)

AllBytes-put_word : (f w : ℕ) (xs : Bytes) → w < 65536 → AllBytes xs → AllBytes (put_word f w xs)
AllBytes-put_word f w xs h b =
    AllBytes-set (f + 1) (w % 256) (set xs f (w / 256)) (omega arith)
      (AllBytes-set f (w / 256) xs (omega arith) b)

put_word-clear :
    (k : ℕ) (xs : Bytes)
    → double k + 2 ≤ length xs
    → put_word (double k) 0 (put_word (double k) 0 xs) ≡ put_word (double k) 0 xs
put_word-clear k [] h = absurd (omega arith)
put_word-clear k (a ∷ []) h = absurd (omega arith)
put_word-clear zero (a ∷ b ∷ xs) h = refl
put_word-clear (suc k) (a ∷ b ∷ xs) h =
    ap (put_word (suc (suc (double k))) 0) (put_word-cons_cons (double k) 0 a b xs)
    ∙ put_word-cons_cons (double k) 0 a b (put_word (double k) 0 xs)
    ∙ ap (λ t. a ∷ b ∷ t) (put_word-clear k xs (omega arith))
    ∙ sym (put_word-cons_cons (double k) 0 a b xs)

-- The word that `putChecksum` puts in the place of 0 makes the array verify.
put_word-verifies :
    (k : ℕ) (xs : Bytes)
    → double k + 2 ≤ length xs
    → AllBytes xs
    → put_word (double k) 0 xs ≡ xs
    → checksum (put_word (double k) (checksum xs) xs) ≡ 0
put_word-verifies k xs h b z =
    checksum-zero (put_word (double k) (checksum xs) xs) (sum16 xs)
      (AllBytes-put_word (double k) (checksum xs) xs (omega (arith, checksum-le xs)) b)
      (sum16-put_word k (checksum xs) xs h ∙ ap₂ (λ t c. sum16 t + c) z (checksum-fold xs b))

-- The slice that `putChecksum` covers has checksum 0 afterwards: a receiver accepts it. The
-- checksum field lies in the slice, at an even distance from its start.
pub put_checksum-verifies :
    (bytes : Bytes) (offset len k : ℕ)
    → AllBytes bytes
    → offset + len ≤ length bytes
    → k + k + 2 ≤ len
    → checksum (slice offset (offset + len) (put_checksum bytes offset len (offset + (k + k)))) ≡ 0
unfolding put_checksum
put_checksum-verifies bytes offset len k b h p = rw (← double-eq k) (
    rw
      (slice-put_word offset len (double k) (checksum (slice offset (offset + len) cleared))
        cleared)
      (rw (slice-put_word offset len (double k) 0 bytes) (
        put_word-verifies k (put_word (double k) 0 part)
          (omega (
            arith,
            double-eq k,
            lengths,
            length-set (set part (double k) 0) (double k + 1) 0,
            length-set part (double k) 0,
          ))
          (AllBytes-put_word (double k) 0 part (omega arith) part_bytes)
          (put_word-clear k part (omega (arith, double-eq k, lengths))))))
  where
    part : Bytes
    part = slice offset (offset + len) bytes

    cleared : Bytes
    cleared = put_word (offset + double k) 0 bytes

    lengths : length part ≡ len
    lengths = length-slice offset len bytes h

    part_bytes : AllBytes part
    part_bytes =
        AllBytes-take (offset + len - offset) (drop offset bytes) (AllBytes-drop offset bytes b)

pub length-put_checksum :
    (bytes : Bytes) (offset len field : ℕ)
    → length (put_checksum bytes offset len field) ≡ length bytes
unfolding put_checksum
length-put_checksum bytes offset len field =
    length-set (set cleared field (c / 256)) (field + 1) (c % 256)
    ∙ length-set cleared field (c / 256)
    ∙ length-set (set bytes field 0) (field + 1) 0
    ∙ length-set bytes field 0
  where
    cleared : Bytes
    cleared = put_word field 0 bytes

    c : ℕ
    c = checksum (slice offset (offset + len) cleared)

-- The same where the whole array is covered, with the field at bytes 2 and 3.
pub put_checksum-verifies_whole :
    (bytes : Bytes)
    → AllBytes bytes
    → 4 ≤ length bytes
    → checksum (put_checksum bytes 0 (length bytes) 2) ≡ 0
put_checksum-verifies_whole bytes b h =
    ap checksum (
      sym (
        take_all (0 + length bytes - 0) done
          (omega (arith, length-put_checksum bytes 0 (length bytes) 2))))
    ∙ put_checksum-verifies bytes 0 (length bytes) 1 b (omega arith) (omega arith)
  where
    done : Bytes
    done = put_checksum bytes 0 (length bytes) 2
