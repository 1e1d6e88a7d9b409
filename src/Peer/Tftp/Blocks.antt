-- ===== src/Peer/Tftp/Blocks.antt =====
-- The blocks of a file.
use sprinter_3c509b.Base.{
  ℕ, zero, suc, ◌+◌, ◌-◌, ◌*◌, true, false, [], ◌∷◌, ltb, ◌==◌, if_false, if_both, length, take,
  drop, Bytes, AllBytes, AllBytes-take, AllBytes-drop, length-take, length-drop, ltb→lt, ◌≡◌, refl,
  ap, ◌∙◌, sym, ◌≤◌, arith,
}
use sprinter_3c509b.Peer.Tftp.{Download, block_of}

-- A block holds bytes of the file, and no more of them than the size of a block.
pub block_of-AllBytes : (d : Download) (block : ℕ) → AllBytes d.file → AllBytes (block_of d block)
block_of-AllBytes d block bytes =
    let start = (block - 1) * d.block_size in
    if_both AllBytes (block == 0) tt (
      AllBytes-take (start + d.block_size - start) (drop start d.file)
        (AllBytes-drop start d.file bytes))

pub length-block_of : (d : Download) (block : ℕ) → length (block_of d block) ≤ d.block_size
length-block_of d block =
    let start = (block - 1) * d.block_size in
    if_both (λ (b : Bytes). length b ≤ d.block_size) (block == 0) (omega arith)
      (omega (arith, length-take {0} (start + d.block_size - start) (drop start d.file)))

pub drop_nil : (n : ℕ) → drop {A = ℕ} n [] ≡ []
drop_nil zero = refl
drop_nil (suc n) = refl

pub drop_past : (n m : ℕ) (xs : Bytes) → drop m (drop n xs) ≡ drop (n + m) xs
drop_past zero m xs = ap (λ k. drop k xs) (omega arith)
drop_past (suc n) m [] = drop_nil m ∙ sym (drop_nil (suc n + m))
drop_past (suc n) m (x ∷ xs) =
    drop_past n m xs ∙ ap (λ k. drop k (x ∷ xs)) {x = suc (n + m)} {y = suc n + m} (omega arith)

-- The block behind `ack` others.
pub block_of-next :
    (d : Download) (ack at : ℕ)
    → at ≡ ack * d.block_size
    → block_of d (ack + 1) ≡ take d.block_size (drop at d.file)
block_of-next d ack at e =
    if_false (ack + 1 == 0) _ _ (ground arith)
    ∙ (ap (λ n. take n (drop ((ack + 1 - 1) * d.block_size) d.file)) (omega arith)
        ∙ ap (λ n. take d.block_size (drop n d.file))
            (ap (λ a. a * d.block_size) (omega arith) ∙ sym e))

pub short_part :
    (size at : ℕ) (file : Bytes)
    → ltb (length (take size (drop at file))) size ≡ true
    → length (drop at file) ≤ size
short_part size at file h =
    let n = length-take {0} size (drop at file) in
    let k = ltb→lt (length (take size (drop at file))) size h in omega arith

pub full_part :
    (size at : ℕ) (file : Bytes)
    → 1 ≤ size
    → ltb (length (take size (drop at file))) size ≡ false
    → at + size ≤ length file
full_part size at file one h =
    let n = length-take {0} size (drop at file) in let m = length-drop {0} at file in ground arith
