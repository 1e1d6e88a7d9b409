-- ===== src/Frame/Icmp.antt =====
-- `icmpEchoRequest`, `buildIcmpReply`, `buildIcmpUnreachable` and `buildIncomingEchoRequest`.
pub mod Echo
use sprinter_3c509b.Base.{
  ℕ, zero, suc, ◌+◌, ◌-◌, ◌*◌, ◌/◌, ◌%◌, Bool, true, false, not, ◌||◌, ◌&&◌, Option, [], ◌∷◌, ◌++◌,
  ltb, ◌==◌, if◌then◌else◌, length, set, slice, Bytes, byte_at, word_at, high, low, flip,
  or_default, or_nonzero, pad_to,
}
use sprinter_3c509b.Frame.Checksum.{put_checksum}
use sprinter_3c509b.Frame.Ip.{ip_header}

-- The fields of `options` that the three builders read.
pub record IcmpOptions : Type 0 where
  pub mac : Option Bytes
  pub ip : Option Bytes
  pub ttl : Option ℕ
  pub unrelated : Bool
  pub corrupt_payload : Bool
  pub foreign_source : Bool
  pub foreign_destination : Bool
  pub bad_icmp_checksum : Bool
  pub bad_ip_checksum : Bool
  pub router_ip : Option Bytes
  pub code : Option ℕ
  pub requester_mac : Option Bytes
  pub requester_ip : Option Bytes

unfoldable pub icmp_echo_request : Bytes → Bool
icmp_echo_request frame =
    let ihl = byte_at frame 14 % 16 * 4 in
    if ltb (length frame) 42 || not (byte_at frame 12 == 8) || not (byte_at frame 13 == 0)
    then false
    else byte_at frame 14 / 16 == 4
      && ihl == 20
      && byte_at frame 23 == 1
      && byte_at frame (14 + ihl) == 8

-- `request.slice(34, ...)` as an Echo Reply: type 0 and its checksum. The IP length of the request
-- is at least 20, as in every frame that the kit sends.
unfoldable pub echo_part : Bytes → ℕ → Bytes
echo_part request icmp_length =
    let icmp = set (slice 34 (34 + icmp_length) request) 0 0 in put_checksum icmp 0 (length icmp) 2

-- The faults that a scenario asks for, in the order of the source.
unfoldable pub damage_icmp : IcmpOptions → ℕ → Bytes → Bytes
damage_icmp o icmp_length frame =
    let corrupts = o.corrupt_payload && ltb 8 icmp_length in
    let r1 = if o.unrelated then flip 38 frame else frame in
    let r2 = if corrupts then flip 42 r1 else r1 in
    let r3 = if o.unrelated || corrupts then put_checksum r2 34 icmp_length 36 else r2 in
    let r4 = if o.foreign_source then put_checksum (flip 26 r3) 14 20 24 else r3 in
    let r5 = if o.foreign_destination then put_checksum (flip 30 r4) 14 20 24 else r4 in
    let r6 = if o.bad_icmp_checksum then flip 36 r5 else r5 in
    if o.bad_ip_checksum then flip 24 r6 else r6

abbrev pub sound_icmp_reply : Bytes → IcmpOptions → Bytes
sound_icmp_reply request o =
    let ip_length = word_at request 16 in
    let peer_mac = or_default o.mac (slice 0 6 request) in
    let peer_ip = or_default o.ip (slice 30 34 request) in
    let local_mac = slice 6 12 request in
    let local_ip = slice 26 30 request in
    let icmp = echo_part request (ip_length - 20) in
    let ip = ip_header ip_length 0x43 0x21 (or_nonzero o.ttl 63) 1 peer_ip local_ip in
    local_mac ++ (peer_mac ++ (8 ∷ 0 ∷ (ip ++ icmp)))

unfoldable pub build_icmp_reply : Bytes → IcmpOptions → Bytes
unfolding damage_icmp
build_icmp_reply request o =
    pad_to 60 (damage_icmp o (word_at request 16 - 20) (sound_icmp_reply request o))

unfoldable pub build_icmp_unreachable : Bytes → IcmpOptions → Bytes
build_icmp_unreachable request o =
    let router_mac = or_default o.mac (slice 0 6 request) in
    let router_ip = or_default o.router_ip (192 ∷ 168 ∷ 7 ∷ 1 ∷ []) in
    let local_mac = slice 6 12 request in
    let local_ip = slice 26 30 request in
    let quote = slice 14 42 request in
    let body = 3 ∷ or_nonzero o.code 1 ∷ 0 ∷ 0 ∷ 0 ∷ 0 ∷ 0 ∷ 0 ∷ quote in
    let icmp = put_checksum body 0 (length body) 2 in
    let ip = ip_header (20 + length icmp) 0x22 0x22 64 1 router_ip local_ip in
    let frame = local_mac ++ (router_mac ++ (8 ∷ 0 ∷ (ip ++ icmp))) in
    if o.unrelated then put_checksum (flip 69 frame) 34 (length icmp) 36 else frame

unfoldable pub build_incoming_echo_request : Bytes → IcmpOptions → Bytes
build_incoming_echo_request outgoing o =
    let local_mac = slice 6 12 outgoing in
    let peer_mac = or_default o.requester_mac (2 ∷ 0 ∷ 0 ∷ 0 ∷ 0 ∷ 77 ∷ []) in
    let local_ip = slice 26 30 outgoing in
    let peer_ip = or_default o.requester_ip (192 ∷ 168 ∷ 7 ∷ 77 ∷ []) in
    let body = 8 ∷ 0 ∷ 0 ∷ 0 ∷ 0x77 ∷ 0x77 ∷ 0 ∷ 1 ∷ 0xa5 ∷ 0x5a ∷ 1 ∷ [] in
    let icmp = put_checksum body 0 (length body) 2 in
    let ip = ip_header (20 + length icmp) 0x11 0x11 32 1 peer_ip local_ip in
    let frame = local_mac ++ (peer_mac ++ (8 ∷ 0 ∷ (ip ++ icmp))) in
    pad_to 60 (if o.bad_icmp_checksum then flip 36 frame else frame)
