-- ===== src/Frame/Tcp.antt =====
-- `tcpSegment` and `buildTcpReply`: TCP over IPv4 over Ethernet.
pub mod Sum
pub mod RoundTrip
pub mod Reply
use sprinter_3c509b.Base.{
  ℕ, zero, suc, ◌+◌, ◌*◌, ◌/◌, ◌%◌, Bool, true, false, not, ◌||◌, ◌&&◌, Option, none, some, [], ◌∷◌,
  ◌++◌, bit_and, ltb, leb, ◌==◌, if◌then◌else◌, length, drop, slice, Bytes, byte_at, word_at, word,
  high, low, or_default, or_nonzero, pad_to, bytes32, u32,
}
use sprinter_3c509b.Frame.Checksum.{checksum, put_word}
use sprinter_3c509b.Frame.Ip.{ip_header}

-- What `tcpSegment` returns; `null` is `none`.
pub record Segment : Type 0 where
  pub ether_source : Bytes
  pub source : Bytes
  pub destination : Bytes
  pub source_port : ℕ
  pub destination_port : ℕ
  pub sequence : ℕ
  pub acknowledgement : ℕ
  pub flags : ℕ
  pub window : ℕ
  pub mss : ℕ
  pub payload : Bytes

-- The fields of `options` that `buildTcpReply` reads.
pub record TcpOptions : Type 0 where
  pub mac : Option Bytes
  pub ip : Option Bytes
  pub payload : Bytes
  pub sequence : ℕ
  pub acknowledgement : ℕ
  pub flags : ℕ
  pub window : Option ℕ
  pub mss : Option ℕ
  pub ttl : Option ℕ

abbrev pub tcp_pseudo : Bytes → Bytes → Bytes
tcp_pseudo addresses tcp = addresses ++ (0 ∷ 6 ∷ high (length tcp) ∷ low (length tcp) ∷ tcp)

-- The loop over the options: the MSS that it finds, or `none` where the segment is refused. Each
-- round moves on by at least a byte, so the header's length is enough fuel.
unfoldable pub read_mss : ℕ → Bytes → ℕ → ℕ → ℕ → Option ℕ
read_mss zero tcp limit at mss = some mss
read_mss (suc fuel) tcp limit at mss =
    let kind = byte_at tcp at in
    let size = byte_at tcp (at + 1) in
    let skip = read_mss fuel tcp limit (at + 1) mss in
    let found = if kind == 2 && size == 4 then word_at tcp (at + 2) else mss in
    let rest = read_mss fuel tcp limit (at + size) found in
    if leb limit at
    then some mss
    else if kind == 0
    then some mss
    else if kind == 1
    then skip
    else if leb limit (at + 1) || ltb size 2 || ltb limit (at + size)
    then none
    else rest

-- The last check, on the ports, and what is returned.
unfoldable pub segment_of : Bytes → Bytes → Bytes → ℕ → ℕ → Option Segment
segment_of frame ip tcp header_length mss =
    if word_at tcp 0 == 0 || word_at tcp 2 == 0
    then none
    else some (record {
      ether_source = slice 6 12 frame;
      source = slice 12 16 ip;
      destination = slice 16 20 ip;
      source_port = word_at tcp 0;
      destination_port = word_at tcp 2;
      sequence = (byte_at tcp 4 * 0x1000000 + byte_at tcp 5 * 65536 + word_at tcp 6) % u32;
      acknowledgement = (byte_at tcp 8 * 0x1000000 + byte_at tcp 9 * 65536 + word_at tcp 10) % u32;
      flags = byte_at tcp 13;
      window = word_at tcp 14;
      mss = mss;
      payload = drop header_length tcp;
    })

unfoldable pub read_tcp : Bytes → Bytes → ℕ → Option Segment
unfolding segment_of
read_tcp frame ip total =
    let tcp = slice 20 total ip in
    let header_length = byte_at tcp 12 / 16 * 4 in
    if ltb header_length 20
      || ltb (length tcp) header_length
      || not (bit_and (byte_at tcp 12) 15 == 0)
    then none
    else if not (checksum (tcp_pseudo (slice 12 20 ip) tcp) == 0)
    then none
    else elim (read_mss header_length tcp header_length 20 0) [
      | none ↦ none
      | some mss ↦ segment_of frame ip tcp header_length mss
    ]

unfoldable pub tcp_segment : Bytes → Option Segment
unfolding read_tcp
tcp_segment frame =
    let ip = drop 14 frame in
    let total = word_at ip 2 in
    if ltb (length frame) 54 || not (byte_at frame 12 == 8) || not (byte_at frame 13 == 0)
    then none
    else if not (byte_at ip 0 == 0x45)
        || not (byte_at ip 9 == 6)
        || not (checksum (slice 0 20 ip) == 0)
    then none
    else if ltb total 40
        || ltb 1500 total
        || ltb (length ip) total
        || not (bit_and (byte_at ip 6) 0xbf == 0)
        || not (byte_at ip 7 == 0)
    then none
    else read_tcp frame ip total

-- `syn`: whether the SYN flag is set.
abbrev pub is_syn : ℕ → Bool
is_syn flags = not (bit_and flags 2 == 0)

-- The TCP header, with an MSS option on a SYN, and the payload; `c` is the checksum.
abbrev pub tcp_with : ℕ → ℕ → TcpOptions → ℕ → Bytes
tcp_with source_port destination_port o c =
    let window = or_default o.window 4096 in
    let mss = or_nonzero o.mss 536 in
    high source_port
    ∷ low source_port
    ∷ high destination_port
    ∷ low destination_port
    ∷ (bytes32 o.sequence
        ++ (bytes32 o.acknowledgement
            ++ ((if is_syn o.flags then 0x60 else 0x50)
                ∷ o.flags
                ∷ high window
                ∷ low window
                ∷ high c
                ∷ low c
                ∷ 0
                ∷ 0
                ∷ ((if is_syn o.flags then 2 ∷ 4 ∷ low (high mss) ∷ low mss ∷ [] else [])
                    ++ o.payload))))

unfoldable pub tcp_part : Bytes → Bytes → ℕ → ℕ → TcpOptions → Bytes
tcp_part source_ip destination_ip source_port destination_port o =
    let tcp = tcp_with source_port destination_port o 0 in
    put_word 16 (checksum (tcp_pseudo (source_ip ++ destination_ip) tcp)) tcp

unfoldable pub build_tcp_reply : Segment → TcpOptions → Bytes
build_tcp_reply request o =
    let source_mac = or_default o.mac (2 ∷ 0 ∷ 0 ∷ 0 ∷ 0 ∷ 44 ∷ []) in
    let source_ip = or_default o.ip request.destination in
    let tcp = tcp_part source_ip request.source request.destination_port request.source_port o in
    let ip =
      ip_header (20 + length tcp) 0x51 0x11 (or_nonzero o.ttl 62) 6 source_ip request.source in
    pad_to 60 (request.ether_source ++ (source_mac ++ (8 ∷ 0 ∷ (ip ++ tcp))))
