-- ===== src/Frame/Tcp/RoundTrip.antt =====
-- What `tcpSegment` reads in a frame that `buildTcpReply` built.
use sprinter_3c509b.Base.{
  ℕ, ◌+◌, ◌-◌, ◌*◌, ◌/◌, ◌%◌, ◌≤◌, ◌≡◌, ◌≢◌, refl, ◌∙◌, some, [], ◌∷◌, ◌++◌, arith, length, drop,
  slice, with_cons4, with_cons6, Bytes, byte_at, word_at, take-append_length, length-append,
  bit_and, u32,
}
use sprinter_3c509b.Frame.Checksum.{checksum}
use sprinter_3c509b.Frame.Ip.{header_with}
use sprinter_3c509b.Frame.Tcp.{Segment, tcp_pseudo, read_mss, segment_of, read_tcp, tcp_segment}

-- The segment that a frame with these IP and TCP parts holds.
abbrev pub segment_with : Bytes → Bytes → Bytes → Bytes → ℕ → ℕ → Segment
segment_with m s d tcp header_length mss = record {
  ether_source = m;
  source = s;
  destination = d;
  source_port = word_at tcp 0;
  destination_port = word_at tcp 2;
  sequence = (byte_at tcp 4 * 0x1000000 + byte_at tcp 5 * 65536 + word_at tcp 6) % u32;
  acknowledgement = (byte_at tcp 8 * 0x1000000 + byte_at tcp 9 * 65536 + word_at tcp 10) % u32;
  flags = byte_at tcp 13;
  window = word_at tcp 14;
  mss = mss;
  payload = drop header_length tcp;
}

-- What the TCP header must say for the segment to be read.
pub record IsReadable (s d tcp : Bytes) (header_length mss : ℕ) : Type 0 where
  pub sum_ok : checksum (tcp_pseudo (s ++ d) tcp) ≡ 0
  pub offset_is : byte_at tcp 12 / 16 * 4 ≡ header_length
  pub reserved : bit_and (byte_at tcp 12) 15 ≡ 0
  pub long : (20 ≤ header_length) × (header_length ≤ length tcp)
  pub small : length tcp ≤ 1480
  pub options : read_mss header_length tcp header_length 20 0 ≡ some mss
  pub ports : (word_at tcp 0 ≢ 0) × (word_at tcp 2 ≢ 0)

segment_of-some :
    (frame ip tcp : Bytes) (hl mss : ℕ)
    → (word_at tcp 0 ≢ 0) × (word_at tcp 2 ≢ 0)
    → segment_of frame ip tcp hl mss
      ≡ some (segment_with (slice 6 12 frame) (slice 12 16 ip) (slice 16 20 ip) tcp hl mss)
unfolding segment_of
segment_of-some frame ip tcp hl mss p = ground arith

read_tcp_lem :
    (frame ip tcp s d : Bytes) (total hl mss : ℕ)
    → slice 20 total ip ≡ tcp
    → slice 12 20 ip ≡ s ++ d
    → IsReadable s d tcp hl mss
    → read_tcp frame ip total ≡ segment_of frame ip tcp hl mss
unfolding read_tcp
read_tcp_lem frame ip tcp s d total hl mss e a v = rw (e, a, v.offset_is, v.options) (ground arith)

-- The checks of `tcpSegment` before the TCP part.
record PassesChecks (frame : Bytes) (ip : Bytes) (total : ℕ) : Type 0 where
  long : 54 ≤ length frame
  ether_type : (byte_at frame 12 ≡ 8) × (byte_at frame 13 ≡ 0)
  version : byte_at ip 0 ≡ 0x45
  protocol : byte_at ip 9 ≡ 6
  verifies : checksum (slice 0 20 ip) ≡ 0
  total_is : word_at ip 2 ≡ total
  bounds : (40 ≤ total) × (total ≤ 1500) × (total ≤ length ip)
  unfragmented : (bit_and (byte_at ip 6) 0xbf ≡ 0) × (byte_at ip 7 ≡ 0)

tcp_segment-checks :
    (frame : Bytes) (total : ℕ)
    → PassesChecks frame (drop 14 frame) total
    → tcp_segment frame ≡ read_tcp frame (drop 14 frame) total
unfolding tcp_segment
tcp_segment-checks frame total v = rw v.total_is (ground arith)

abbrev pub tcp_frame : Bytes → Bytes → Bytes → Bytes → Bytes → Bytes
tcp_frame e m h tcp pad = e ++ (m ++ (8 ∷ 0 ∷ (h ++ (tcp ++ pad))))

module _ (tcp pad : Bytes) (hl mss c ih il ttl : ℕ) where
  abbrev header : Bytes → Bytes → Bytes
  header s d = header_with (20 + length tcp) ih il ttl 6 s d c

  abbrev Reads : Bytes → Bytes → Bytes → Bytes → Type 0
  Reads e m s d =
      IsReadable s d tcp hl mss
      → checksum (header s d) ≡ 0
      → tcp_segment (tcp_frame e m (header s d) tcp pad) ≡ some (segment_with m s d tcp hl mss)

  Reads-parts :
      (e0 e1 e2 e3 e4 e5 m0 m1 m2 m3 m4 m5 s0 s1 s2 s3 d0 d1 d2 d3 : ℕ)
      → Reads
          (e0 ∷ e1 ∷ e2 ∷ e3 ∷ e4 ∷ e5 ∷ [])
          (m0 ∷ m1 ∷ m2 ∷ m3 ∷ m4 ∷ m5 ∷ [])
          (s0 ∷ s1 ∷ s2 ∷ s3 ∷ [])
          (d0 ∷ d1 ∷ d2 ∷ d3 ∷ [])
  Reads-parts e0 e1 e2 e3 e4 e5 m0 m1 m2 m3 m4 m5 s0 s1 s2 s3 d0 d1 d2 d3 v ok =
      tcp_segment-checks frame (20 + length tcp) (record {
        long = omega (arith, length-append tcp pad, v.long);
        ether_type = (refl, refl);
        version = refl;
        protocol = refl;
        verifies = ok;
        total_is = omega (arith, v.small);
        bounds = omega (arith, length-append tcp pad, v.long, v.small);
        unfragmented = (refl, refl);
      })
      ∙ read_tcp_lem frame (drop 14 frame) tcp (s0 ∷ s1 ∷ s2 ∷ s3 ∷ []) (d0 ∷ d1 ∷ d2 ∷ d3 ∷ [])
          (20 + length tcp) hl mss (take-append_length (20 + length tcp - 20) tcp pad (omega arith))
          refl v
      ∙ segment_of-some frame (drop 14 frame) tcp hl mss v.ports
    where
      frame : Bytes
      frame =
          tcp_frame (e0 ∷ e1 ∷ e2 ∷ e3 ∷ e4 ∷ e5 ∷ []) (m0 ∷ m1 ∷ m2 ∷ m3 ∷ m4 ∷ m5 ∷ [])
            (header (s0 ∷ s1 ∷ s2 ∷ s3 ∷ []) (d0 ∷ d1 ∷ d2 ∷ d3 ∷ [])) tcp pad

  -- A readable frame is read, whatever stands behind it.
  pub tcp_segment-frame :
      (e m s d : Bytes) → length e ≡ 6 → length m ≡ 6 → length s ≡ 4 → length d ≡ 4 → Reads e m s d
  tcp_segment-frame e m s d le lm ls ld =
      with_cons6 (λ e. Reads e m s d)
        (λ e0 e1 e2 e3 e4 e5.
          with_cons6 (λ m. Reads (e0 ∷ e1 ∷ e2 ∷ e3 ∷ e4 ∷ e5 ∷ []) m s d)
            (λ m0 m1 m2 m3 m4 m5.
              with_cons4
                (λ s.
                  Reads (e0 ∷ e1 ∷ e2 ∷ e3 ∷ e4 ∷ e5 ∷ []) (m0 ∷ m1 ∷ m2 ∷ m3 ∷ m4 ∷ m5 ∷ []) s d)
                (λ s0 s1 s2 s3.
                  with_cons4
                    (λ d.
                      Reads (e0 ∷ e1 ∷ e2 ∷ e3 ∷ e4 ∷ e5 ∷ []) (m0 ∷ m1 ∷ m2 ∷ m3 ∷ m4 ∷ m5 ∷ [])
                        (s0 ∷ s1 ∷ s2 ∷ s3 ∷ []) d)
                    (Reads-parts e0 e1 e2 e3 e4 e5 m0 m1 m2 m3 m4 m5 s0 s1 s2 s3) d ld)
                s ls)
            m lm)
        e le
