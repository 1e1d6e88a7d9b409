-- ===== src/Frame/Udp.antt =====
-- `udpDatagram` and `buildUdpReply`: UDP over IPv4 over Ethernet.
pub mod Sum
pub mod RoundTrip
pub mod Reply
use sprinter_3c509b.Base.{
  ℤ, word_plus, is_zero, ℕ, zero, suc, ◌+◌, Bool, not, ◌&&◌, ◌||◌, Option, none, some, List, [],
  ◌∷◌, ◌++◌, bit_and, ltb, ◌==◌, if◌then◌else◌, length, take, drop, slice, Bytes, byte_at, word_at,
  high, low, flip, set, or_default, or_nonzero, pad_to,
}
use sprinter_3c509b.Frame.Checksum.{checksum, put_word, put_checksum}
use sprinter_3c509b.Frame.Ip.{ip_header}

-- What `udpDatagram` returns; `null` is `none`.
pub record Datagram : Type 0 where
  pub ether_source : Bytes
  pub source : Bytes
  pub destination : Bytes
  pub source_port : ℕ
  pub destination_port : ℕ
  pub payload : Bytes
  pub ip : Bytes

-- The fields of `options` that `buildUdpReply` reads. `udp_length_delta` is 0 where it is missing, and
-- may be negative.
pub record UdpOptions : Type 0 where
  pub mac : Option Bytes
  pub ip : Option Bytes
  pub payload : Option Bytes
  pub corrupt_payload : Bool
  pub source_port : Option ℕ
  pub destination_port : Option ℕ
  pub ttl : Option ℕ
  pub foreign_source : Bool
  pub foreign_destination : Bool
  pub bad_ip_checksum : Bool
  pub bad_udp_checksum : Bool
  pub udp_length_delta : ℤ

-- The pseudo-header and the datagram, over which the UDP checksum runs.
abbrev pub pseudo : Bytes → ℕ → Bytes → Bytes
pseudo addresses udp_length udp = addresses ++ (0 ∷ 17 ∷ high udp_length ∷ low udp_length ∷ udp)

-- The checks on the UDP part, and what is returned.
unfoldable pub read_udp : Bytes → Bytes → ℕ → Option Datagram
read_udp frame ip total =
    let udp = slice 20 total ip in
    let udp_length = word_at udp 4 in
    let bad =
      (not (byte_at udp 6 == 0) || not (byte_at udp 7 == 0))
      && not (checksum (pseudo (slice 12 20 ip) udp_length udp) == 0) in
    if not (udp_length == length udp) || ltb udp_length 8
    then none
    else if bad
    then none
    else some (record {
      ether_source = slice 6 12 frame;
      source = slice 12 16 ip;
      destination = slice 16 20 ip;
      source_port = word_at udp 0;
      destination_port = word_at udp 2;
      payload = drop 8 udp;
      ip = take total ip;
    })

unfoldable pub udp_datagram : Bytes → Option Datagram
unfolding read_udp
udp_datagram frame =
    let ip = drop 14 frame in
    let total = word_at ip 2 in
    if ltb (length frame) 42 || not (byte_at frame 12 == 8) || not (byte_at frame 13 == 0)
    then none
    else if not (byte_at ip 0 == 0x45)
        || not (byte_at ip 9 == 17)
        || not (checksum (slice 0 20 ip) == 0)
    then none
    else if ltb total 28
        || ltb 1500 total
        || ltb (length ip) total
        || not (bit_and (byte_at ip 6) 0xbf == 0)
        || not (byte_at ip 7 == 0)
    then none
    else read_udp frame ip total

-- `etherSource.map((_, i) => i === 5 ? 44 : (i === 0 ? 2 : 0))`
unfoldable pub peer_mac : ℕ → Bytes → Bytes
peer_mac i [] = []
peer_mac i (_ ∷ rest) = (if i == 5 then 44 else if i == 0 then 2 else 0) ∷ peer_mac (i + 1) rest

-- `payload[0] ^= 1`, if there is a payload.
abbrev pub reply_payload : Datagram → UdpOptions → Bytes
reply_payload request options =
    let payload = or_default options.payload request.payload in
    if options.corrupt_payload then flip 0 payload else payload

abbrev pub reply_mac : Datagram → UdpOptions → Bytes
reply_mac request options = or_default options.mac (peer_mac 0 request.ether_source)

abbrev pub reply_ip : Datagram → UdpOptions → Bytes
reply_ip request options = or_default options.ip request.destination

abbrev pub reply_source_port : Datagram → UdpOptions → ℕ
reply_source_port request options = or_default options.source_port request.destination_port

abbrev pub reply_destination_port : Datagram → UdpOptions → ℕ
reply_destination_port request options = or_default options.destination_port request.source_port

-- The UDP header with its checksum, and the payload. A sum of 0 is sent as 0xffff.
unfoldable pub udp_part : Bytes → Bytes → ℕ → ℕ → Bytes → Bytes
udp_part source_ip destination_ip source_port destination_port payload =
    let udp_length = 8 + length payload in
    let udp =
      high source_port
      ∷ low source_port
      ∷ high destination_port
      ∷ low destination_port
      ∷ high udp_length
      ∷ low udp_length
      ∷ 0
      ∷ 0
      ∷ payload in
    let sum = checksum (pseudo (source_ip ++ destination_ip) udp_length udp) in
    put_word 6 (if sum == 0 then 0xffff else sum) udp

-- The faults that a scenario asks for, in the order of the source.
unfoldable pub damage_udp : UdpOptions → ℕ → Bytes → Bytes
damage_udp options udp_length reply =
    let claimed = word_plus udp_length options.udp_length_delta in
    let r1 = if options.foreign_source then put_checksum (flip 26 reply) 14 20 24 else reply in
    let r2 = if options.foreign_destination then put_checksum (flip 30 r1) 14 20 24 else r1 in
    let r3 = if options.bad_ip_checksum then flip 24 r2 else r2 in
    let r4 = if options.bad_udp_checksum then flip 40 r3 else r3 in
    if is_zero options.udp_length_delta
    then r4
    else set (set (set (set r4 38 (high claimed)) 39 (low claimed)) 40 0) 41 0

-- The reply before the faults.
abbrev pub sound_udp_reply : Datagram → UdpOptions → Bytes
sound_udp_reply request options =
    let source_ip = reply_ip request options in
    let payload = reply_payload request options in
    let total = 28 + length payload in
    let ip = ip_header total 0x63 0x21 (or_nonzero options.ttl 61) 17 source_ip request.source in
    let udp =
      udp_part source_ip request.source (reply_source_port request options)
        (reply_destination_port request options) payload in
    request.ether_source ++ (reply_mac request options ++ (8 ∷ 0 ∷ (ip ++ udp)))

unfoldable pub build_udp_reply : Datagram → UdpOptions → Bytes
unfolding damage_udp
build_udp_reply request options = pad_to 60 (
    damage_udp options (8 + length (reply_payload request options))
      (sound_udp_reply request options))
