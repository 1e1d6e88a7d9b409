-- ===== src/Frame/Ip.antt =====
-- The IPv4 header without options that every reply builder writes.
use sprinter_3c509b.Base.{
  ℕ, ◌<◌, ◌≡◌, ap, [], ◌∷◌, ◌++◌, arith, length, length-append, take_all, Bytes, high, low,
  AllBytes, AllBytes-append,
}
use sprinter_3c509b.Frame.Checksum.{checksum, put_checksum}
use sprinter_3c509b.Frame.Checksum.Laws.{sum16, checksum-fold, checksum-zero, checksum-le}

-- The IP header of a reply, its checksum put in. `id` is its identification.
unfoldable pub ip_header : ℕ → ℕ → ℕ → ℕ → ℕ → Bytes → Bytes → Bytes
ip_header total id_high id_low ttl protocol source_ip destination_ip =
    put_checksum
      (0x45
        ∷ 0
        ∷ high total
        ∷ low total
        ∷ id_high
        ∷ id_low
        ∷ 0x40
        ∷ 0
        ∷ ttl
        ∷ protocol
        ∷ 0
        ∷ 0
        ∷ (source_ip ++ destination_ip))
      0 20 10

-- The header with `c` for its checksum.
abbrev pub header_with : ℕ → ℕ → ℕ → ℕ → ℕ → Bytes → Bytes → ℕ → Bytes
header_with total id_high id_low ttl protocol s d c =
    0x45
    ∷ 0
    ∷ high total
    ∷ low total
    ∷ id_high
    ∷ id_low
    ∷ 0x40
    ∷ 0
    ∷ ttl
    ∷ protocol
    ∷ high c
    ∷ low c
    ∷ (s ++ d)

module _ (total id_high id_low ttl protocol : ℕ) (s d : Bytes) where
  -- The facts under which a header is well formed.
  pub record IsHeader : Type 0 where
    pub source_length : length s ≡ 4
    pub destination_length : length d ≡ 4
    pub source_bytes : AllBytes s
    pub destination_bytes : AllBytes d
    pub total_bound : total < 65536
    pub id_bound : (id_high < 256) × (id_low < 256)
    pub ttl_bound : ttl < 256
    pub protocol_bound : protocol < 256

  abbrev pub header_sum : ℕ
  header_sum = checksum (header_with total id_high id_low ttl protocol s d 0)

  pub ip_header-eq :
      IsHeader
      → ip_header total id_high id_low ttl protocol s d
        ≡ header_with total id_high id_low ttl protocol s d header_sum
  unfolding ip_header put_checksum
  ip_header-eq v =
      ap
        (λ t. header_with total id_high id_low ttl protocol s d (
          checksum (
            0x45
            ∷ 0
            ∷ high total
            ∷ low total
            ∷ id_high
            ∷ id_low
            ∷ 0x40
            ∷ 0
            ∷ ttl
            ∷ protocol
            ∷ 0
            ∷ 0
            ∷ t)))
        (take_all 8 (s ++ d)
          (omega (arith, length-append s d, v.source_length, v.destination_length)))

  header-AllBytes :
      IsHeader
      → (c : ℕ) → c < 65536
      → AllBytes (header_with total id_high id_low ttl protocol s d c)
  header-AllBytes v c h =
      AllBytes-append
        (0x45
          ∷ 0
          ∷ high total
          ∷ low total
          ∷ id_high
          ∷ id_low
          ∷ 0x40
          ∷ 0
          ∷ ttl
          ∷ protocol
          ∷ high c
          ∷ low c
          ∷ [])
        (s ++ d) (omega (arith, v.total_bound))
        (AllBytes-append s d v.source_bytes v.destination_bytes)

  -- A receiver that checks the header of a reply finds checksum 0.
  pub ip_header-verifies :
      IsHeader → checksum (header_with total id_high id_low ttl protocol s d header_sum) ≡ 0
  ip_header-verifies v =
      checksum-zero (header_with total id_high id_low ttl protocol s d header_sum)
        (sum16 (header_with total id_high id_low ttl protocol s d 0))
        (header-AllBytes v header_sum
          (omega (arith, checksum-le (header_with total id_high id_low ttl protocol s d 0))))
        (omega (
          arith,
          checksum-fold (header_with total id_high id_low ttl protocol s d 0)
              (header-AllBytes v 0 (omega arith)),
        ))
