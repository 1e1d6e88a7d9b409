-- ===== src/Frame/Checksum.antt =====
-- `checksum` and `putChecksum`: the Internet checksum over a byte array.
pub mod Laws
pub mod Put
use sprinter_3c509b.Base.{
  ℕ, ◌+◌, ◌-◌, ◌*◌, ◌/◌, ◌%◌, List, [], ◌∷◌, Bytes, word, high, low, set, slice,
}

-- One round of the loop: the word is added and the carry comes back in.
abbrev pub add_word : ℕ → ℕ → ℕ
add_word sum w = let t = sum + w in t % 65536 + t / 65536

-- The loop. An odd last byte counts as the high one, `bytes[i + 1] || 0`.
unfoldable pub checksum_loop : ℕ → Bytes → ℕ
checksum_loop sum [] = sum
checksum_loop sum (a ∷ []) = add_word sum (word a 0)
checksum_loop sum (a ∷ b ∷ rest) = checksum_loop (add_word sum (word a b)) rest

-- `(~sum) & 0xffff`; the sum is below 2^16.
unfoldable pub checksum : Bytes → ℕ
checksum bytes = 65535 - checksum_loop 0 bytes

abbrev pub put_word : ℕ → ℕ → Bytes → Bytes
put_word field w bytes = set (set bytes field (high w)) (field + 1) (low w)

unfoldable pub put_checksum : Bytes → ℕ → ℕ → ℕ → Bytes
put_checksum bytes offset len field =
    let cleared = put_word field 0 bytes in
    put_word field (checksum (slice offset (offset + len) cleared)) cleared
