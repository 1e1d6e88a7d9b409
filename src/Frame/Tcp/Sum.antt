-- ===== src/Frame/Tcp/Sum.antt =====
-- The checksum that `buildTcpReply` puts into a segment verifies.
use sprinter_3c509b.Base.{
  ℕ, ◌+◌, ◌≤◌, ◌<◌, ◌≡◌, refl, ◌∙◌, ap, inl, inr, [], ◌∷◌, ◌++◌, arith, length, length-append,
  Bytes, AllBytes, AllBytes-append, high, low, bytes32, if◌then◌else◌, or_default, or_nonzero,
  Bool-cases,
}
use sprinter_3c509b.Frame.Checksum.{checksum}
use sprinter_3c509b.Frame.Checksum.Laws.{
  sum16, checksum-fold, checksum-le, checksum-zero, sum16-append,
}
use sprinter_3c509b.Frame.Tcp.{TcpOptions, tcp_pseudo, tcp_with, tcp_part, is_syn}

-- The bytes behind the fixed header.
abbrev pub mss_part : TcpOptions → Bytes
mss_part o =
    if is_syn o.flags
    then 2 ∷ 4 ∷ low (high (or_nonzero o.mss 536)) ∷ low (or_nonzero o.mss 536) ∷ []
    else []

-- The facts under which a TCP reply from `s` to `d` is well formed.
pub record IsTcpReply (s d : Bytes) (sp dp : ℕ) (o : TcpOptions) : Type 0 where
  pub source_length : length s ≡ 4
  pub destination_length : length d ≡ 4
  pub source_bytes : AllBytes s
  pub destination_bytes : AllBytes d
  pub payload_bytes : AllBytes o.payload
  pub source_port : sp < 65536
  pub destination_port : dp < 65536
  pub flags : o.flags < 256
  pub window : or_default o.window 4096 < 65536
  pub payload_length : length o.payload + length (mss_part o) ≤ 1460

mss_part-AllBytes : (o : TcpOptions) → AllBytes (mss_part o)
mss_part-AllBytes o = elim (Bool-cases (is_syn o.flags)) [
  | inl e ↦ rw e (omega arith)
  | inr e ↦ rw e tt
]

length-mss_part : (o : TcpOptions) → length (mss_part o) ≡ (if is_syn o.flags then 4 else 0)
length-mss_part o = elim (Bool-cases (is_syn o.flags)) [ inl e ↦ rw e | inr e ↦ rw e ]

-- The data offset byte: 24 or 20 bytes of header.
abbrev pub offset_byte : TcpOptions → ℕ
offset_byte o = if is_syn o.flags then 0x60 else 0x50

offset_byte-lt : (o : TcpOptions) → offset_byte o < 256
offset_byte-lt o = ground arith

pub length-mss_part-le : (o : TcpOptions) → length (mss_part o) ≤ 4
length-mss_part-le o = rw (length-mss_part o) (ground arith)

pub length-tcp_with :
    (sp dp : ℕ) (o : TcpOptions) (c : ℕ)
    → length (tcp_with sp dp o c) ≡ 20 + (length (mss_part o) + length o.payload)
length-tcp_with sp dp o c = omega (arith, length-append (mss_part o) o.payload)

abbrev pub tcp_sum : Bytes → Bytes → ℕ → ℕ → TcpOptions → ℕ
tcp_sum s d sp dp o = checksum (tcp_pseudo (s ++ d) (tcp_with sp dp o 0))

pub tcp_part-eq :
    (s d : Bytes) (sp dp : ℕ) (o : TcpOptions)
    → tcp_part s d sp dp o ≡ tcp_with sp dp o (tcp_sum s d sp dp o)
unfolding tcp_part
tcp_part-eq s d sp dp o = refl

module _ (s d : Bytes) (sp dp : ℕ) (o : TcpOptions) (v : IsTcpReply s d sp dp o) where
  pseudo-AllBytes : (c : ℕ) → c < 65536 → AllBytes (tcp_pseudo (s ++ d) (tcp_with sp dp o c))
  pseudo-AllBytes c h =
      AllBytes-append (s ++ d) _ (AllBytes-append s d v.source_bytes v.destination_bytes) (
        AllBytes-append header (mss_part o ++ o.payload)
          (omega (
            arith,
            v.source_port,
            v.destination_port,
            v.flags,
            v.window,
            v.payload_length,
            length-tcp_with sp dp o c,
            length-mss_part-le o,
            offset_byte-lt o,
          ))
          (AllBytes-append (mss_part o) o.payload (mss_part-AllBytes o) v.payload_bytes))
    where
      n : ℕ
      n = length (tcp_with sp dp o c)

      w : ℕ
      w = or_default o.window 4096

      header : Bytes
      header =
          (0 ∷ 6 ∷ high n ∷ low n ∷ high sp ∷ low sp ∷ high dp ∷ low dp ∷ bytes32 o.sequence)
          ++ (bytes32 o.acknowledgement
              ++ (offset_byte o ∷ o.flags ∷ high w ∷ low w ∷ high c ∷ low c ∷ 0 ∷ 0 ∷ []))

  pseudo-sum16 :
      (c : ℕ)
      → sum16 (tcp_pseudo (s ++ d) (tcp_with sp dp o c))
        ≡ sum16 (tcp_pseudo (s ++ d) (tcp_with sp dp o 0)) + c
  pseudo-sum16 c = omega (
    arith,
    sum16-append 4 (s ++ d)
        (0
          ∷ 6
          ∷ high (length (tcp_with sp dp o c))
          ∷ low (length (tcp_with sp dp o c))
          ∷ tcp_with sp dp o c)
        lengths,
    sum16-append 4 (s ++ d)
        (0
          ∷ 6
          ∷ high (length (tcp_with sp dp o 0))
          ∷ low (length (tcp_with sp dp o 0))
          ∷ tcp_with sp dp o 0)
        lengths,
  )
    where
      lengths : length (s ++ d) ≡ 8
      lengths = omega (arith, length-append s d, v.source_length, v.destination_length)

  -- The segment that `buildTcpReply` puts together verifies under its pseudo-header.
  pub tcp_sum-verifies : checksum (tcp_pseudo (s ++ d) (tcp_with sp dp o (tcp_sum s d sp dp o))) ≡ 0
  tcp_sum-verifies =
      checksum-zero full (sum16 bare) (pseudo-AllBytes c (omega (arith, checksum-le bare))) (
        pseudo-sum16 c
        ∙ ap (λ t. sum16 bare + t) (checksum-fold bare (pseudo-AllBytes 0 (omega arith))))
    where
      bare : Bytes
      bare = tcp_pseudo (s ++ d) (tcp_with sp dp o 0)

      c : ℕ
      c = tcp_sum s d sp dp o

      full : Bytes
      full = tcp_pseudo (s ++ d) (tcp_with sp dp o c)
