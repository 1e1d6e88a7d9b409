-- ===== src/Frame/Icmp/Echo.antt =====
-- The Echo Reply that `buildIcmpReply` builds.
use sprinter_3c509b.Base.{
  ℕ, zero, suc, [], ◌∷◌, refl, sym, ap, ap₂, take, get_or-drop, ◌+◌, ◌-◌, ◌≤◌, ◌≡◌, ◌∙◌, arith,
  length, length-set, length-take, length-drop, drop, byte_at, slice, set, Bytes, AllBytes,
  AllBytes-set, AllBytes-take, AllBytes-drop,
}
use sprinter_3c509b.Frame.Checksum.{checksum, put_checksum}
use sprinter_3c509b.Frame.Checksum.Put.{put_checksum-verifies_whole, length-put_checksum}
use sprinter_3c509b.Frame.Icmp.{echo_part}

one_more : (m : ℕ) → suc (m + 4) ≡ suc m + 4
one_more m = omega arith

drop-drop : (m : ℕ) (xs : Bytes) → drop 4 (drop m xs) ≡ drop (m + 4) xs
drop-drop zero xs = refl
drop-drop (suc m) [] = ap (λ k. drop k []) (one_more m)
drop-drop (suc m) (x ∷ xs) = drop-drop m xs ∙ ap (λ k. drop k (x ∷ xs)) (one_more m)

-- The message that `echo_part` writes over `xs`.
abbrev echo_over : Bytes → Bytes
echo_over xs = put_checksum (set xs 0 0) 0 (length (set xs 0 0)) 2

echo_over-keeps :
    (m : ℕ) (ys : Bytes)
    → 4 ≤ length ys
    → let reply = echo_over (take (suc (suc (suc (suc m)))) ys) in
      (byte_at reply 0 ≡ 0) × (byte_at reply 1 ≡ byte_at ys 1) × (drop 4 reply ≡ take m (drop 4 ys))
unfolding put_checksum
echo_over-keeps m [] h = absurd (omega arith)
echo_over-keeps m (a ∷ []) h = absurd (omega arith)
echo_over-keeps m (a ∷ b ∷ []) h = absurd (omega arith)
echo_over-keeps m (a ∷ b ∷ c ∷ []) h = absurd (omega arith)
echo_over-keeps m (a ∷ b ∷ c ∷ d ∷ rest) h = (refl, refl, refl)

-- The ICMP part of the reply to a request whose bytes hold an ICMP message of `n` bytes, at least
-- 8, is the Echo Reply to it: it has that length, its type is 0, its code, identifier, sequence
-- number and data are those of the request, and its checksum verifies.
pub echo_part-answers :
    (request : Bytes) (n : ℕ)
    → AllBytes request
    → 8 ≤ n
    → 34 + n ≤ length request
    → let reply = echo_part request n in
      (length reply ≡ n)
      × (byte_at reply 0 ≡ 0)
      × (byte_at reply 1 ≡ byte_at request 35)
      × (drop 4 reply ≡ slice 38 (34 + n) request)
      × (checksum reply ≡ 0)
unfolding echo_part
echo_part-answers request n b h fits = (
  length-put_checksum icmp 0 (length icmp) 2 ∙ size,
  ap (λ k. byte_at (echo_over (take k message)) 0) whole ∙ kept.0,
  ap (λ k. byte_at (echo_over (take k message)) 1) whole
      ∙ (kept.1 ∙ sym (get_or-drop 34 1 request 0)),
  ap (λ k. drop 4 (echo_over (take k message))) whole
      ∙ (kept.2 ∙ ap₂ (λ k ys. take k ys) rest (drop-drop 34 request)),
  put_checksum-verifies_whole icmp bytes (omega (arith, size)),
)
  where
    message : Bytes
    message = drop 34 request

    whole : 34 + n - 34 ≡ suc (suc (suc (suc (n - 4))))
    whole = omega arith

    rest : n - 4 ≡ 34 + n - 38
    rest = omega arith

    kept :
        let reply = echo_over (take (suc (suc (suc (suc (n - 4))))) message) in
        (byte_at reply 0 ≡ 0)
        × (byte_at reply 1 ≡ byte_at message 1)
        × (drop 4 reply ≡ take (n - 4) (drop 4 message))
    kept = echo_over-keeps (n - 4) message (omega (arith, length-drop {0} 34 request))

    icmp : Bytes
    icmp = set (slice 34 (34 + n) request) 0 0

    size : length icmp ≡ n
    size = omega (
      arith,
      length-set (slice 34 (34 + n) request) 0 0,
      length-take {0} (34 + n - 34) (drop 34 request),
      length-drop {0} 34 request,
    )

    bytes : AllBytes icmp
    bytes =
        AllBytes-set 0 0 (slice 34 (34 + n) request) (omega arith)
          (AllBytes-take (34 + n - 34) (drop 34 request) (AllBytes-drop 34 request b))
