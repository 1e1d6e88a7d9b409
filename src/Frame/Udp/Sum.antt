-- ===== src/Frame/Udp/Sum.antt =====
-- The checksum that `buildUdpReply` puts into a datagram verifies.
use sprinter_3c509b.Base.{
  ℕ, ◌+◌, ◌-◌, ◌≤◌, ◌<◌, ◌≡◌, refl, ◌∙◌, ap, inl, inr, [], ◌∷◌, ◌++◌, arith, length, Bytes,
  AllBytes, AllBytes-append, high, low, ◌==◌, if◌then◌else◌, Bool-cases, ==_iff, ◌⊎◌, length-append,
}
use sprinter_3c509b.Frame.Checksum.{checksum}
use sprinter_3c509b.Frame.Checksum.Laws.{
  sum16, fold, fold-le, checksum-fold, checksum-zero, checksum-zero_max, sum16-append,
}
use sprinter_3c509b.Frame.Udp.{pseudo, udp_part}

module _ (s d p : Bytes) (sp dp : ℕ) where
  -- The facts under which a UDP reply is well formed.
  pub record IsUdpReply : Type 0 where
    pub source_length : length s ≡ 4
    pub destination_length : length d ≡ 4
    pub source_bytes : AllBytes s
    pub destination_bytes : AllBytes d
    pub payload_bytes : AllBytes p
    pub source_port : sp < 65536
    pub destination_port : dp < 65536
    pub payload_length : length p ≤ 1472

-- The UDP header and payload with `c` for a checksum.
abbrev pub udp_with : Bytes → ℕ → ℕ → ℕ → Bytes
udp_with p sp dp c =
    high sp
    ∷ low sp
    ∷ high dp
    ∷ low dp
    ∷ high (8 + length p)
    ∷ low (8 + length p)
    ∷ high c
    ∷ low c
    ∷ p

-- What `buildUdpReply` stores as the checksum.
abbrev pub udp_sum : Bytes → Bytes → Bytes → ℕ → ℕ → ℕ
udp_sum s d p sp dp =
    let sum = checksum (pseudo (s ++ d) (8 + length p) (udp_with p sp dp 0)) in
    if sum == 0 then 0xffff else sum

pub udp_part-eq :
    (s d p : Bytes) (sp dp : ℕ) → udp_part s d sp dp p ≡ udp_with p sp dp (udp_sum s d p sp dp)
unfolding udp_part
udp_part-eq s d p sp dp = refl

pub pseudo-sum16 :
    (s d p : Bytes) (sp dp c : ℕ)
    → IsUdpReply s d p sp dp
    → sum16 (pseudo (s ++ d) (8 + length p) (udp_with p sp dp c))
      ≡ sum16 (pseudo (s ++ d) (8 + length p) (udp_with p sp dp 0)) + c
pseudo-sum16 s d p sp dp c v = omega (
  arith,
  sum16-append 4 (s ++ d) (0 ∷ 17 ∷ high (8 + length p) ∷ low (8 + length p) ∷ udp_with p sp dp c)
      lengths,
  sum16-append 4 (s ++ d) (0 ∷ 17 ∷ high (8 + length p) ∷ low (8 + length p) ∷ udp_with p sp dp 0)
      lengths,
)
  where
    lengths : length (s ++ d) ≡ 8
    lengths = omega (arith, length-append s d, v.source_length, v.destination_length)

pub pseudo-AllBytes :
    (s d p : Bytes) (sp dp c : ℕ)
    → IsUdpReply s d p sp dp
    → c < 65536
    → AllBytes (pseudo (s ++ d) (8 + length p) (udp_with p sp dp c))
pseudo-AllBytes s d p sp dp c v h =
    AllBytes-append (s ++ d) _ (AllBytes-append s d v.source_bytes v.destination_bytes)
      (AllBytes-append header p (omega (arith, v.source_port)) v.payload_bytes)
  where
    header : Bytes
    header =
        0
        ∷ 17
        ∷ high (8 + length p)
        ∷ low (8 + length p)
        ∷ high sp
        ∷ low sp
        ∷ high dp
        ∷ low dp
        ∷ high (8 + length p)
        ∷ low (8 + length p)
        ∷ high c
        ∷ low c
        ∷ []

udp_sum-cases :
    (s d p : Bytes) (sp dp n : ℕ)
    → checksum (pseudo (s ++ d) (8 + length p) (udp_with p sp dp 0)) ≡ 65535 - fold n
    → (udp_sum s d p sp dp ≡ 65535 - fold n) ⊎ ((fold n ≡ 65535) × (udp_sum s d p sp dp ≡ 65535))
udp_sum-cases s d p sp dp n e = elim (Bool-cases (checksum bare == 0)) [
  | inl z ↦ inr (omega (arith, e, fold-le n, (==_iff (checksum bare) 0).0 z), rw z)
  | inr nz ↦ inl (rw nz e)
]
  where
    bare : Bytes
    bare = pseudo (s ++ d) (8 + length p) (udp_with p sp dp 0)

-- The datagram that `buildUdpReply` puts together verifies under its pseudo-header.
pub udp_sum-verifies :
    (s d p : Bytes) (sp dp : ℕ)
    → IsUdpReply s d p sp dp
    → checksum (pseudo (s ++ d) (8 + length p) (udp_with p sp dp (udp_sum s d p sp dp))) ≡ 0
udp_sum-verifies s d p sp dp v =
    elim (udp_sum-cases s d p sp dp n
      (checksum-fold bare (pseudo-AllBytes s d p sp dp 0 v (omega arith)))) [
        | inl e ↦
            checksum-zero full n (pseudo-AllBytes s d p sp dp c v (omega arith))
              (added ∙ ap (λ t. n + t) e)
        | inr (f, e) ↦
            checksum-zero_max full n (pseudo-AllBytes s d p sp dp c v (omega arith)) f
              (added ∙ ap (λ t. n + t) e)
      ]
  where
    c : ℕ
    c = udp_sum s d p sp dp

    n : ℕ
    n = sum16 (pseudo (s ++ d) (8 + length p) (udp_with p sp dp 0))

    bare : Bytes
    bare = pseudo (s ++ d) (8 + length p) (udp_with p sp dp 0)

    full : Bytes
    full = pseudo (s ++ d) (8 + length p) (udp_with p sp dp c)

    added : sum16 full ≡ n + c
    added = pseudo-sum16 s d p sp dp c v
