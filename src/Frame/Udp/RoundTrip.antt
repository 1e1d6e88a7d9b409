-- ===== src/Frame/Udp/RoundTrip.antt =====
-- What `udpDatagram` reads in a frame that `buildUdpReply` built.
use sprinter_3c509b.Base.{
  ℕ, ◌+◌, ◌-◌, ◌≤◌, ◌<◌, ◌≡◌, refl, ◌∙◌, ap, ap₂, some, [], ◌∷◌, ◌++◌, arith, length, take, drop,
  slice, with_cons4, with_cons6, Bytes, byte_at, word_at, take-append_length, length-append,
  bit_and,
}
use sprinter_3c509b.Frame.Checksum.{checksum}
use sprinter_3c509b.Frame.Ip.{
  ip_header, header_with, header_sum, IsHeader, ip_header-eq, ip_header-verifies,
}
use sprinter_3c509b.Frame.Udp.Sum.{IsUdpReply, udp_with, udp_sum, udp_part-eq, udp_sum-verifies}
use sprinter_3c509b.Frame.Udp.{pseudo, read_udp, udp_datagram, udp_part}

-- The datagram that starts at byte 20 of `ip` is read field by field.
pub read_udp_lem :
    (frame ip udp : Bytes) (total : ℕ)
    → slice 20 total ip ≡ udp
    → word_at udp 4 ≡ length udp
    → 8 ≤ length udp
    → checksum (pseudo (slice 12 20 ip) (word_at udp 4) udp) ≡ 0
    → read_udp frame ip total
      ≡ some (record {
        ether_source = slice 6 12 frame;
        source = slice 12 16 ip;
        destination = slice 16 20 ip;
        source_port = word_at udp 0;
        destination_port = word_at udp 2;
        payload = drop 8 udp;
        ip = take total ip;
      })
unfolding read_udp
read_udp_lem frame ip udp total e len long sum = rw e (ground arith)

-- A frame of these parts, with some bytes behind it.
abbrev pub udp_frame : Bytes → Bytes → Bytes → Bytes → Bytes → Bytes
udp_frame e m h udp pad = e ++ (m ++ (8 ∷ 0 ∷ (h ++ (udp ++ pad))))

-- The checks of `udpDatagram` before the UDP part.
pub record PassesChecks (frame : Bytes) (ip : Bytes) (total : ℕ) : Type 0 where
  long : 42 ≤ length frame
  ether_type : (byte_at frame 12 ≡ 8) × (byte_at frame 13 ≡ 0)
  version : byte_at ip 0 ≡ 0x45
  protocol : byte_at ip 9 ≡ 17
  verifies : checksum (slice 0 20 ip) ≡ 0
  total_is : word_at ip 2 ≡ total
  bounds : (28 ≤ total) × (total ≤ 1500) × (total ≤ length ip)
  unfragmented : (bit_and (byte_at ip 6) 0xbf ≡ 0) × (byte_at ip 7 ≡ 0)

udp_datagram-checks :
    (frame : Bytes) (total : ℕ)
    → PassesChecks frame (drop 14 frame) total
    → udp_datagram frame ≡ read_udp frame (drop 14 frame) total
unfolding udp_datagram
udp_datagram-checks frame total v = rw (v.total_is) (ground arith)

-- What the IP header and the UDP header must say for the frame to be read.
pub record IsReadable (s d udp : Bytes) (total c ih il ttl : ℕ) : Type 0 where
  pub header_sum_ok : checksum (header_with total ih il ttl 17 s d c) ≡ 0
  pub udp_sum_ok : checksum (pseudo (s ++ d) (word_at udp 4) udp) ≡ 0
  pub total_is : total ≡ 20 + length udp
  pub length_is : word_at udp 4 ≡ length udp
  pub long : 8 ≤ length udp
  pub small : total ≤ 1500

module _ (udp pad : Bytes) (total c ih il ttl : ℕ) where
  abbrev Reads : Bytes → Bytes → Bytes → Bytes → Type 0
  Reads e m s d =
      IsReadable s d udp total c ih il ttl
      → udp_datagram (udp_frame e m (header_with total ih il ttl 17 s d c) udp pad)
        ≡ some (record {
          ether_source = m;
          source = s;
          destination = d;
          source_port = word_at udp 0;
          destination_port = word_at udp 2;
          payload = drop 8 udp;
          ip = header_with total ih il ttl 17 s d c ++ udp;
        })

  Reads-parts :
      (e0 e1 e2 e3 e4 e5 m0 m1 m2 m3 m4 m5 s0 s1 s2 s3 d0 d1 d2 d3 : ℕ)
      → Reads
          (e0 ∷ e1 ∷ e2 ∷ e3 ∷ e4 ∷ e5 ∷ [])
          (m0 ∷ m1 ∷ m2 ∷ m3 ∷ m4 ∷ m5 ∷ [])
          (s0 ∷ s1 ∷ s2 ∷ s3 ∷ [])
          (d0 ∷ d1 ∷ d2 ∷ d3 ∷ [])
  Reads-parts e0 e1 e2 e3 e4 e5 m0 m1 m2 m3 m4 m5 s0 s1 s2 s3 d0 d1 d2 d3 v =
      udp_datagram-checks frame total (record {
        long = omega (arith, length-append udp pad, v.long);
        ether_type = (refl, refl);
        version = refl;
        protocol = refl;
        verifies = v.header_sum_ok;
        total_is = omega arith;
        bounds = omega (arith, length-append udp pad, v.long, v.small, v.total_is);
        unfragmented = (refl, refl);
      })
      ∙ read_udp_lem frame (drop 14 frame) udp total
          (take-append_length (total - 20) udp pad (omega (arith, v.total_is))) v.length_is v.long
          v.udp_sum_ok
      ∙ ap
          (λ t. some (record {
            ether_source = m0 ∷ m1 ∷ m2 ∷ m3 ∷ m4 ∷ m5 ∷ [];
            source = s;
            destination = d;
            source_port = word_at udp 0;
            destination_port = word_at udp 2;
            payload = drop 8 udp;
            ip = t;
          }))
          (take-append_length total (header ++ udp) pad (omega (arith, v.total_is)))
    where
      s : Bytes
      s = s0 ∷ s1 ∷ s2 ∷ s3 ∷ []

      d : Bytes
      d = d0 ∷ d1 ∷ d2 ∷ d3 ∷ []

      header : Bytes
      header = header_with total ih il ttl 17 s d c

      frame : Bytes
      frame =
          udp_frame (e0 ∷ e1 ∷ e2 ∷ e3 ∷ e4 ∷ e5 ∷ []) (m0 ∷ m1 ∷ m2 ∷ m3 ∷ m4 ∷ m5 ∷ []) header udp
            pad

  -- A readable frame is read, whatever stands behind it.
  pub udp_datagram-frame :
      (e m s d : Bytes) → length e ≡ 6 → length m ≡ 6 → length s ≡ 4 → length d ≡ 4 → Reads e m s d
  udp_datagram-frame e m s d le lm ls ld =
      with_cons6 (λ e. Reads e m s d)
        (λ e0 e1 e2 e3 e4 e5.
          with_cons6 (λ m. Reads (e0 ∷ e1 ∷ e2 ∷ e3 ∷ e4 ∷ e5 ∷ []) m s d)
            (λ m0 m1 m2 m3 m4 m5.
              with_cons4
                (λ s.
                  Reads (e0 ∷ e1 ∷ e2 ∷ e3 ∷ e4 ∷ e5 ∷ []) (m0 ∷ m1 ∷ m2 ∷ m3 ∷ m4 ∷ m5 ∷ []) s d)
                (λ s0 s1 s2 s3.
                  with_cons4
                    (λ d.
                      Reads (e0 ∷ e1 ∷ e2 ∷ e3 ∷ e4 ∷ e5 ∷ []) (m0 ∷ m1 ∷ m2 ∷ m3 ∷ m4 ∷ m5 ∷ [])
                        (s0 ∷ s1 ∷ s2 ∷ s3 ∷ []) d)
                    (Reads-parts e0 e1 e2 e3 e4 e5 m0 m1 m2 m3 m4 m5 s0 s1 s2 s3) d ld)
                s ls)
            m lm)
        e le

-- The frame of a well-formed reply reads back as its parts.
pub udp_frame-read :
    (e m s d p pad : Bytes) (sp dp ih il ttl : ℕ)
    → length e ≡ 6
    → length m ≡ 6
    → IsUdpReply s d p sp dp
    → (ih < 256) × (il < 256)
    → ttl < 256
    → let h = ip_header (28 + length p) ih il ttl 17 s d in
      let udp = udp_part s d sp dp p in
      udp_datagram (udp_frame e m h udp pad)
      ≡ some (record {
        ether_source = m;
        source = s;
        destination = d;
        source_port = sp;
        destination_port = dp;
        payload = p;
        ip = h ++ udp;
      })
udp_frame-read e m s d p pad sp dp ih il ttl le lm v id ht =
    rw (ip_header-eq total ih il ttl 17 s d w, udp_part-eq s d p sp dp)
      (udp_datagram-frame udp pad total c ih il ttl e m s d le lm v.source_length
          v.destination_length
          (record {
            header_sum_ok = ip_header-verifies total ih il ttl 17 s d w;
            udp_sum_ok = rw len (udp_sum-verifies s d p sp dp v);
            total_is = omega arith;
            length_is = omega arith;
            long = omega arith;
            small = omega (arith, v.payload_length);
          })
        ∙ ap₂
            (λ x y. some (record {
              ether_source = m;
              source = s;
              destination = d;
              source_port = x;
              destination_port = y;
              payload = p;
              ip = header_with total ih il ttl 17 s d c ++ udp;
            }))
            (omega arith) (omega arith))
  where
    total : ℕ
    total = 28 + length p

    w : IsHeader total ih il ttl 17 s d
    w = record {
      source_length = v.source_length;
      destination_length = v.destination_length;
      source_bytes = v.source_bytes;
      destination_bytes = v.destination_bytes;
      total_bound = omega (arith, v.payload_length);
      id_bound = id;
      ttl_bound = ht;
      protocol_bound = omega arith;
    }

    c : ℕ
    c = header_sum total ih il ttl 17 s d

    udp : Bytes
    udp = udp_with p sp dp (udp_sum s d p sp dp)

    len : word_at udp 4 ≡ 8 + length p
    len = omega arith
