-- ===== src/Frame/Ntp/Reply.antt =====
-- The answer of `buildNtpReply`, as `udpDatagram` reads it.
use sprinter_3c509b.Base.{
  ℕ, ◌+◌, ◌*◌, ◌%◌, ◌<◌, ◌≡◌, refl, ◌∙◌, ap, sym, false, not, some, [], ◌∷◌, ◌++◌, arith, length,
  append_assoc, length-append, length-set, length-take, length-drop, take, drop, slice, replicate,
  take-append_length, drop-append_length, Bytes, AllBytes, AllBytes-at, AllBytes-append,
  AllBytes-take, AllBytes-drop, AllBytes-set, byte_at, bit_xor-one-lt, bit_xor, or_default, bytes32,
  if_both, if_false, ◌==◌, not-eq_false, suc,
}
use mathlib.Core.Path.{subst}
use sprinter_3c509b.Frame.Udp.{Datagram, UdpOptions, udp_datagram, build_udp_reply, peer_mac}
use sprinter_3c509b.Frame.Udp.Reply.{Fits, build_udp_reply-read}
use sprinter_3c509b.Frame.Ntp.{
  NtpOptions, cookie, server_seconds, ntp_message, ntp_transport, build_ntp_reply,
}

-- A request of 48 bytes with its addresses, and options that ask for no fault of the transport.
pub record Asks (r : Datagram) (o : NtpOptions) : Type 0 where
  pub ether_length : length r.ether_source ≡ 6
  pub source_length : length r.source ≡ 4
  pub destination_length : length r.destination ≡ 4
  pub source_bytes : AllBytes r.source
  pub destination_bytes : AllBytes r.destination
  pub payload_length : length r.payload ≡ 48
  pub payload_bytes : AllBytes r.payload
  pub stratum : or_default o.stratum 2 < 256
  pub source_port : or_default o.source_port 123 < 65536
  pub destination_port : or_default o.destination_port r.source_port < 65536
  pub whole : o.truncated ≡ false
  pub checksum : o.bad_checksum ≡ false
  pub transmits : o.zero_transmit ≡ false

length-peer_mac : (i : ℕ) (xs : Bytes) → length (peer_mac i xs) ≡ length xs
unfolding peer_mac
length-peer_mac i [] = refl
length-peer_mac i (x ∷ xs) = ap suc (length-peer_mac (i + 1) xs)

length-cookie : (p : Bytes) (o : NtpOptions) → length p ≡ 48 → length (cookie p o) ≡ 8
length-cookie p o h = if_both (λ c. length c ≡ 8) o.stale_cookie (length-set part 7 _ ∙ size) size
  where
    part : Bytes
    part = slice 40 48 p

    size : length part ≡ 8
    size = omega (arith, length-take {0} 8 (drop 40 p), length-drop {0} 40 p)

AllBytes-cookie : (p : Bytes) (o : NtpOptions) → AllBytes p → AllBytes (cookie p o)
AllBytes-cookie p o b =
    if_both AllBytes o.stale_cookie
      (AllBytes-set 7 (bit_xor (byte_at part 7) 1) part
        (bit_xor-one-lt (byte_at part 7) (AllBytes-at 7 part bytes)) bytes)
      bytes
  where
    part : Bytes
    part = slice 40 48 p

    bytes : AllBytes part
    bytes = AllBytes-take 8 (drop 40 p) (AllBytes-drop 40 p b)

-- The message of a server that transmits its time, taken apart.
abbrev head : NtpOptions → Bytes
head o =
    (or_default o.leap 0 % 4 * 64 + or_default o.version 4 % 8 * 8 + or_default o.mode_value 4 % 8)
    ∷ or_default o.stratum 2
    ∷ 6
    ∷ 0xec
    ∷ replicate 20 0

abbrev tail : NtpOptions → Bytes
tail o = replicate 8 0 ++ (bytes32 (server_seconds o) ++ (0x80 ∷ 0 ∷ 0 ∷ 0 ∷ []))

module _ (r : Datagram) (o : NtpOptions) (v : Asks r o) where
  ntp_message-eq : ntp_message r.payload o ≡ head o ++ (cookie r.payload o ++ tail o)
  unfolding ntp_message
  ntp_message-eq =
      if_false o.truncated _ _ v.whole
      ∙ ap (λ t. head o ++ (cookie r.payload o ++ (replicate 8 0 ++ t)))
          (if_false o.zero_transmit _ _ v.transmits)

  parts_length : length (head o ++ (cookie r.payload o ++ tail o)) ≡ 48
  parts_length = omega (
    arith,
    length-append (cookie r.payload o) (tail o),
    length-cookie r.payload o v.payload_length,
  )

  parts_bytes : AllBytes (head o ++ (cookie r.payload o ++ tail o))
  parts_bytes = AllBytes-append (head o) (cookie r.payload o ++ tail o) (omega (arith, v.stratum)) (
      AllBytes-append (cookie r.payload o) (tail o) (AllBytes-cookie r.payload o v.payload_bytes)
        (omega arith))

  message_at :
      (payload : Bytes)
      → payload ≡ head o ++ (cookie r.payload o ++ tail o)
      → (slice 24 32 payload ≡ cookie r.payload o)
        × (slice 40 44 payload ≡ bytes32 (server_seconds o))
  message_at payload e = (
    ap (slice 24 32) e
        ∙ take-append_length 8 (cookie r.payload o) (tail o)
            (length-cookie r.payload o v.payload_length),
    ap (slice 40 44) e
        ∙ ap (λ t. take 4 (drop 16 t))
            (sym (
              append_assoc (cookie r.payload o) (replicate 8 0)
                (bytes32 (server_seconds o) ++ (0x80 ∷ 0 ∷ 0 ∷ 0 ∷ []))))
        ∙ ap (take 4) (
            drop-append_length 16 (cookie r.payload o ++ replicate 8 0) _ (
              length-append (cookie r.payload o) (replicate 8 0)
              ∙ ap (λ n. n + 8) (length-cookie r.payload o v.payload_length))),
  )

  abbrev transport : UdpOptions
  transport = ntp_transport r o (ntp_message r.payload o)

  transport-Fits : Fits r transport
  unfolding peer_mac
  transport-Fits = record {
    ether_length = v.ether_length;
    mac_length = length-peer_mac 0 r.ether_source ∙ v.ether_length;
    parts = record {
      source_length = v.destination_length;
      destination_length = v.source_length;
      source_bytes = v.destination_bytes;
      destination_bytes = v.source_bytes;
      payload_bytes = subst AllBytes (sym ntp_message-eq) parts_bytes;
      source_port = v.source_port;
      destination_port = v.destination_port;
      payload_length = omega (arith, ap length ntp_message-eq, parts_length);
    };
    ttl = omega arith;
  }

  -- A request of 48 bytes is answered with a datagram that `udpDatagram` accepts, from the
  -- server's address to the client's address and port; it carries the timestamp of the request,
  -- or a stale one where that is asked for, and the server's seconds, modulo 2^32. No other fault
  -- is asked for, and the fields of the request and the options have their widths.
  pub build_ntp_reply-read :
      (frame : Bytes) × (build_ntp_reply r o ≡ some frame)
      × (d : Datagram) × (udp_datagram frame ≡ some d)
      × (d.source ≡ r.destination)
      × (d.destination ≡ r.source)
      × (d.destination_port ≡ or_default o.destination_port r.source_port)
      × (slice 24 32 d.payload ≡ cookie r.payload o)
      × (slice 40 44 d.payload ≡ bytes32 (server_seconds o))
  unfolding build_ntp_reply
  build_ntp_reply-read = (
    build_udp_reply r transport,
    if_false (not (length r.payload == 48)) _ _
        (not-eq_false (length r.payload) 48 v.payload_length),
    _,
    build_udp_reply-read r transport
        (record {
          source = refl;
          destination = refl;
          ip_checksum = refl;
          udp_checksum = v.checksum;
          delta = refl;
        })
        transport-Fits,
    refl,
    refl,
    refl,
    (message_at (ntp_message r.payload o) ntp_message-eq).0,
    (message_at (ntp_message r.payload o) ntp_message-eq).1,
  )
