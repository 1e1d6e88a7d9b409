-- ===== src/Frame/Tcp/Reply.antt =====
-- A reply of `buildTcpReply`, as `tcpSegment` reads it.
use sprinter_3c509b.Base.{
  ℕ, ◌+◌, ◌-◌, ◌%◌, ◌<◌, ◌≡◌, ◌≢◌, ◌∙◌, ap, inl, inr, some, [], ◌∷◌, ◌++◌, arith, length,
  append_assoc, Bytes, replicate, or_nonzero, or_default, if◌then◌else◌, u32, Bool-cases, drop, ◌/◌,
  ◌*◌, bit_and, high, low,
}
use sprinter_3c509b.Frame.Ip.{header_with, header_sum, IsHeader, ip_header-eq, ip_header-verifies}
use sprinter_3c509b.Frame.Tcp.Sum.{
  IsTcpReply, tcp_sum, tcp_part-eq, tcp_sum-verifies, length-tcp_with, length-mss_part-le, mss_part,
}
use sprinter_3c509b.Frame.Tcp.RoundTrip.{IsReadable, segment_with, tcp_frame, tcp_segment-frame}
use sprinter_3c509b.Frame.Tcp.{
  Segment, TcpOptions, tcp_segment, tcp_with, build_tcp_reply, is_syn, read_mss,
}

abbrev pub reply_mac : TcpOptions → Bytes
reply_mac o = or_default o.mac (2 ∷ 0 ∷ 0 ∷ 0 ∷ 0 ∷ 44 ∷ [])

abbrev pub reply_ip : Segment → TcpOptions → Bytes
reply_ip r o = or_default o.ip r.destination

-- What the reader finds in the MSS option; a segment with no SYN has none.
abbrev pub reply_mss : TcpOptions → ℕ
reply_mss o = if is_syn o.flags then or_nonzero o.mss 536 else 0

abbrev header_length : TcpOptions → ℕ
header_length o = if is_syn o.flags then 24 else 20

offset-eq : (o : TcpOptions) → (if is_syn o.flags then 0x60 else 0x50) / 16 * 4 ≡ header_length o
offset-eq o = elim (Bool-cases (is_syn o.flags)) [ inl e ↦ rw e | inr e ↦ rw e ]

reserved-eq : (o : TcpOptions) → bit_and (if is_syn o.flags then 0x60 else 0x50) 15 ≡ 0
reserved-eq o = elim (Bool-cases (is_syn o.flags)) [ inl e ↦ rw e | inr e ↦ rw e ]

length-header : (o : TcpOptions) → header_length o ≡ 20 + length (mss_part o)
length-header o = elim (Bool-cases (is_syn o.flags)) [ inl e ↦ rw e | inr e ↦ rw e ]

-- The option loop finds the MSS that was put in.
read_mss-tcp_with :
    (sp dp : ℕ) (o : TcpOptions) (c : ℕ)
    → or_nonzero o.mss 536 < 65536
    → read_mss (header_length o) (tcp_with sp dp o c) (header_length o) 20 0 ≡ some (reply_mss o)
unfolding read_mss
read_mss-tcp_with sp dp o c h = elim (Bool-cases (is_syn o.flags)) [
  | inl e ↦ rw e (ap some (omega arith))
  | inr e ↦ rw e
]

drop-tcp_with :
    (sp dp : ℕ) (o : TcpOptions) (c : ℕ) → drop (header_length o) (tcp_with sp dp o c) ≡ o.payload
drop-tcp_with sp dp o c = elim (Bool-cases (is_syn o.flags)) [ inl e ↦ rw e | inr e ↦ rw e ]

module _ (s d : Bytes) (sp dp : ℕ) (o : TcpOptions) (v : IsTcpReply s d sp dp o) where
  tcp_with-IsReadable :
      (sp ≢ 0) × (dp ≢ 0)
      → or_nonzero o.mss 536 < 65536
      → IsReadable s d (tcp_with sp dp o (tcp_sum s d sp dp o)) (header_length o) (reply_mss o)
  tcp_with-IsReadable ports mss = record {
    sum_ok = tcp_sum-verifies s d sp dp o v;
    offset_is = offset-eq o;
    reserved = reserved-eq o;
    long = omega (arith, length-header o, length-tcp_with sp dp o c);
    small = omega (arith, length-tcp_with sp dp o c, length-mss_part-le o, v.payload_length);
    options = read_mss-tcp_with sp dp o c mss;
    ports = omega arith;
  }
    where
      c : ℕ
      c = tcp_sum s d sp dp o

-- The addresses, ports, payload and options of the reply fit their fields.
pub record Fits (r : Segment) (o : TcpOptions) : Type 0 where
  pub ether_length : length r.ether_source ≡ 6
  pub mac_length : length (reply_mac o) ≡ 6
  pub parts : IsTcpReply (reply_ip r o) r.source r.destination_port r.source_port o
  pub ports : (r.destination_port ≢ 0) × (r.source_port ≢ 0)
  pub mss : or_nonzero o.mss 536 < 65536
  pub ttl : or_nonzero o.ttl 62 < 256

word_back : (w : ℕ) → high w * 256 + low w ≡ w
word_back w = omega arith

-- The fields of the header read back.
segment-tcp_with :
    (m s d : Bytes) (sp dp : ℕ) (o : TcpOptions) (c : ℕ)
    → segment_with m s d (tcp_with sp dp o c) (header_length o) (reply_mss o) ≡ record {
      ether_source = m;
      source = s;
      destination = d;
      source_port = sp;
      destination_port = dp;
      sequence = o.sequence % u32;
      acknowledgement = o.acknowledgement % u32;
      flags = o.flags;
      window = or_default o.window 4096;
      mss = reply_mss o;
      payload = o.payload;
    }
segment-tcp_with m s d sp dp o c = λ i. record {
  ether_source = m;
  source = s;
  destination = d;
  source_port = word_back sp i;
  destination_port = word_back dp i;
  sequence = joined o.sequence i;
  acknowledgement = joined o.acknowledgement i;
  flags = o.flags;
  window = word_back (or_default o.window 4096) i;
  mss = reply_mss o;
  payload = drop-tcp_with sp dp o c i;
}
  where
    joined :
        (w : ℕ)
        → (w / 0x1000000 % 256 * 0x1000000
              + w / 0x10000 % 256 * 65536
              + (w / 0x100 % 256 * 256 + w % 256))
            % u32
          ≡ w % u32
    joined w = omega arith

frame_assoc :
    (e m h tcp pad : Bytes) → (e ++ (m ++ (8 ∷ 0 ∷ (h ++ tcp)))) ++ pad ≡ tcp_frame e m h tcp pad
frame_assoc e m h tcp pad = simp append_assoc

-- A segment that `buildTcpReply` builds is accepted by `tcpSegment` and read back: it goes from
-- the chosen address and the request's destination port to the request's source, with the chosen
-- sequence and acknowledgement numbers modulo 2^32, flags, window and payload, and with the MSS
-- option exactly on a SYN. The parts fit their fields: ports that are not 0, an MSS and a window
-- below 2^16, and at most 1460 bytes of payload, or 1456 on a SYN.
pub build_tcp_reply-read :
    (r : Segment) (o : TcpOptions)
    → Fits r o
    → tcp_segment (build_tcp_reply r o)
      ≡ some (record {
        ether_source = reply_mac o;
        source = reply_ip r o;
        destination = r.source;
        source_port = r.destination_port;
        destination_port = r.source_port;
        sequence = o.sequence % u32;
        acknowledgement = o.acknowledgement % u32;
        flags = o.flags;
        window = or_default o.window 4096;
        mss = reply_mss o;
        payload = o.payload;
      })
unfolding build_tcp_reply
build_tcp_reply-read r o v =
    rw (tcp_part-eq s r.source sp dp o, ip_header-eq total 0x51 0x11 ttl 6 s r.source w)
      (ap tcp_segment (frame_assoc r.ether_source (reply_mac o) h tcp pad)
        ∙ tcp_segment-frame tcp pad (header_length o) (reply_mss o)
            (header_sum total 0x51 0x11 ttl 6 s r.source) 0x51 0x11 ttl r.ether_source (reply_mac o)
            s r.source v.ether_length v.mac_length v.parts.source_length v.parts.destination_length
            (tcp_with-IsReadable s r.source sp dp o v.parts v.ports v.mss)
            (ip_header-verifies total 0x51 0x11 ttl 6 s r.source w)
        ∙ ap some (segment-tcp_with (reply_mac o) s r.source sp dp o (tcp_sum s r.source sp dp o)))
  where
    s : Bytes
    s = reply_ip r o

    sp : ℕ
    sp = r.destination_port

    dp : ℕ
    dp = r.source_port

    ttl : ℕ
    ttl = or_nonzero o.ttl 62

    tcp : Bytes
    tcp = tcp_with sp dp o (tcp_sum s r.source sp dp o)

    total : ℕ
    total = 20 + length tcp

    w : IsHeader total 0x51 0x11 ttl 6 s r.source
    w = record {
      source_length = v.parts.source_length;
      destination_length = v.parts.destination_length;
      source_bytes = v.parts.source_bytes;
      destination_bytes = v.parts.destination_bytes;
      total_bound = omega (
        arith,
        v.parts.payload_length,
        length-tcp_with sp dp o (tcp_sum s r.source sp dp o),
        length-mss_part-le o,
      );
      id_bound = omega arith;
      ttl_bound = v.ttl;
      protocol_bound = omega arith;
    }

    h : Bytes
    h = header_with total 0x51 0x11 ttl 6 s r.source (header_sum total 0x51 0x11 ttl 6 s r.source)

    pad : Bytes
    pad = replicate (60 - length (r.ether_source ++ (reply_mac o ++ (8 ∷ 0 ∷ (h ++ tcp))))) 0
