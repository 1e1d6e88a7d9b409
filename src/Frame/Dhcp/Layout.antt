-- ===== src/Frame/Dhcp/Layout.antt =====
-- The frame of a DHCP reply by its parts: where the readers find the checksum, the body and the
-- message type.
use sprinter_3c509b.Base.{
  ℕ, zero, suc, ◌+◌, ◌≤◌, ◌≡◌, refl, ◌∙◌, ap, [], ◌∷◌, ◌++◌, arith, length, drop, with_addresses,
  Bytes, byte_at,
}
use sprinter_3c509b.Frame.Checksum.{checksum}
use sprinter_3c509b.Frame.Checksum.Laws.{sum16, checksum-fold, checksum-zero, checksum-le}
use sprinter_3c509b.Frame.Ip.{header_with}
use sprinter_3c509b.Frame.Udp.{pseudo}
use sprinter_3c509b.Frame.Udp.Sum.{IsUdpReply, udp_with, pseudo-sum16, pseudo-AllBytes}
use sprinter_3c509b.Frame.Dhcp.{with_udp_checksum, find_type, dhcp_message_type}

-- The checksum of a datagram without the rule for 0 still verifies.
module _ (s d p : Bytes) (sp dp : ℕ) (v : IsUdpReply s d p sp dp) where
  abbrev pub plain_sum : ℕ
  plain_sum = checksum (pseudo (s ++ d) (8 + length p) (udp_with p sp dp 0))

  pub plain_sum-verifies :
      checksum (pseudo (s ++ d) (8 + length p) (udp_with p sp dp plain_sum)) ≡ 0
  plain_sum-verifies =
      checksum-zero _ (sum16 bare)
        (pseudo-AllBytes s d p sp dp plain_sum v (omega (arith, checksum-le bare)))
        (pseudo-sum16 s d p sp dp plain_sum v
          ∙ ap (λ t. sum16 bare + t)
              (checksum-fold bare (pseudo-AllBytes s d p sp dp 0 v (omega arith))))
    where
      bare : Bytes
      bare = pseudo (s ++ d) (8 + length p) (udp_with p sp dp 0)

-- The frame with `c` for its UDP checksum.
abbrev pub dhcp_frame : Bytes → Bytes → Bytes → Bytes → Bytes → ℕ → ℕ → Bytes
dhcp_frame e m s d p hc c =
    e ++ (m ++ (8 ∷ 0 ∷ (header_with (28 + length p) 0x12 0x34 64 17 s d hc ++ udp_with p 67 68 c)))

module _ (p : Bytes) (hc : ℕ) where
  -- Storing the checksum into a frame of these parts.
  abbrev Stores : Bytes → Bytes → Bytes → Bytes → Type 0
  Stores e m s d =
      with_udp_checksum (s ++ d) (8 + length p) (dhcp_frame e m s d p hc 0)
      ≡ dhcp_frame e m s d p hc (checksum (pseudo (s ++ d) (8 + length p) (udp_with p 67 68 0)))

  Stores-parts :
      (e0 e1 e2 e3 e4 e5 m0 m1 m2 m3 m4 m5 s0 s1 s2 s3 d0 d1 d2 d3 : ℕ)
      → Stores
          (e0 ∷ e1 ∷ e2 ∷ e3 ∷ e4 ∷ e5 ∷ [])
          (m0 ∷ m1 ∷ m2 ∷ m3 ∷ m4 ∷ m5 ∷ [])
          (s0 ∷ s1 ∷ s2 ∷ s3 ∷ [])
          (d0 ∷ d1 ∷ d2 ∷ d3 ∷ [])
  unfolding with_udp_checksum
  Stores-parts e0 e1 e2 e3 e4 e5 m0 m1 m2 m3 m4 m5 s0 s1 s2 s3 d0 d1 d2 d3 = refl

  pub Stores-frame :
      (e m s d : Bytes) → length e ≡ 6 → length m ≡ 6 → length s ≡ 4 → length d ≡ 4 → Stores e m s d
  Stores-frame = with_addresses Stores Stores-parts

-- The body stands at byte 42, behind the headers.
module _ (p : Bytes) (hc c : ℕ) where
  abbrev pub Starts : Bytes → Bytes → Bytes → Bytes → Type 0
  Starts e m s d =
      let frame = dhcp_frame e m s d p hc c in
      (drop 42 frame ≡ p)
      × (length frame ≡ 42 + length p)
      × (byte_at frame 12 ≡ 8)
      × (byte_at frame 13 ≡ 0)

  Starts-parts :
      (e0 e1 e2 e3 e4 e5 m0 m1 m2 m3 m4 m5 s0 s1 s2 s3 d0 d1 d2 d3 : ℕ)
      → Starts
          (e0 ∷ e1 ∷ e2 ∷ e3 ∷ e4 ∷ e5 ∷ [])
          (m0 ∷ m1 ∷ m2 ∷ m3 ∷ m4 ∷ m5 ∷ [])
          (s0 ∷ s1 ∷ s2 ∷ s3 ∷ [])
          (d0 ∷ d1 ∷ d2 ∷ d3 ∷ [])
  Starts-parts e0 e1 e2 e3 e4 e5 m0 m1 m2 m3 m4 m5 s0 s1 s2 s3 d0 d1 d2 d3 =
      (refl, omega arith, refl, refl)

  pub Starts-frame :
      (e m s d : Bytes) → length e ≡ 6 → length m ≡ 6 → length s ≡ 4 → length d ≡ 4 → Starts e m s d
  Starts-frame = with_addresses Starts Starts-parts

-- The options start at byte 282 with the message type.
find_type-first :
    (n type : ℕ) (frame : Bytes)
    → 286 ≤ length frame
    → length frame ≤ n
    → byte_at frame 282 ≡ 53
    → byte_at frame 283 ≡ 1
    → byte_at frame 284 ≡ type
    → find_type n frame 282 ≡ type
unfolding find_type
find_type-first zero type frame long fuel e f g = absurd (omega arith)
find_type-first (suc n) type frame long fuel e f g = ground arith

pub dhcp_message_type-first :
    (type : ℕ) (frame : Bytes)
    → 286 ≤ length frame
    → byte_at frame 12 ≡ 8
    → byte_at frame 13 ≡ 0
    → byte_at frame 282 ≡ 53
    → byte_at frame 283 ≡ 1
    → byte_at frame 284 ≡ type
    → dhcp_message_type frame ≡ type
unfolding dhcp_message_type
dhcp_message_type-first type frame long a b e f g =
    ground (arith, find_type-first (length frame) type frame)
