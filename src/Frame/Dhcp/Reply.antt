-- ===== src/Frame/Dhcp/Reply.antt =====
-- A reply of `buildDhcpReply`, as `udpDatagram` and `dhcpMessageType` read it.
use sprinter_3c509b.Base.{
  ℕ, ◌+◌, ◌≤◌, ◌≡◌, refl, sym, ◌∙◌, ap, false, some, [], ◌∷◌, ◌++◌, arith, length, length-append,
  append-nil, drop, get_or-append, get_or-drop, slice, length-take, length-drop, Bytes, byte_at,
  word_at, AllBytes, if_both, if_false, replicate, if◌then◌else◌, not, ◌&&◌, ◌==◌,
}
use sprinter_3c509b.Frame.Ip.{header_with, header_sum, IsHeader, ip_header-eq, ip_header-verifies}
use sprinter_3c509b.Frame.Udp.{Datagram, udp_datagram}
use sprinter_3c509b.Frame.Udp.Sum.{IsUdpReply, udp_with}
use sprinter_3c509b.Frame.Udp.RoundTrip.{udp_datagram-frame}
use sprinter_3c509b.Frame.Dhcp.{
  DhcpOptions, unless, lease_options, server_mac, server_ip, offered_ip, destination_mac,
  destination_ip, bootp, dhcp_options, dhcp_body, sound_dhcp_reply, damage_dhcp, with_udp_checksum,
  build_dhcp_reply, dhcp_message_type,
}
use sprinter_3c509b.Frame.Dhcp.Layout.{
  plain_sum, plain_sum-verifies, dhcp_frame, Stores-frame, Starts, Starts-frame,
  dhcp_message_type-first,
}

-- No fault is asked for.
pub record IsSound (o : DhcpOptions) : Type 0 where
  pub xid : o.bad_xid ≡ false
  pub chaddr : o.bad_chaddr ≡ false
  pub cookie : o.bad_cookie ≡ false
  pub options : o.bad_options ≡ false
  pub checksum : o.bad_udp_checksum ≡ false

-- The parts of the reply fit their fields.
pub record Fits (request : Bytes) (type : ℕ) (o : DhcpOptions) : Type 0 where
  pub request_length : 76 ≤ length request
  pub ether_length : length (destination_mac request o) ≡ 6
  pub mac_length : length (server_mac o) ≡ 6
  pub ip_length : length (server_ip o) ≡ 4
  pub destination_length : length (destination_ip request o) ≡ 4
  pub offered_length : length (offered_ip o) ≡ 4
  pub ip_bytes : AllBytes (server_ip o)
  pub destination_bytes : AllBytes (destination_ip request o)
  pub body_bytes : AllBytes (dhcp_body request type o)
  pub body_length : length (dhcp_body request type o) ≤ 1472

parts_length :
    (a b c d e f g : Bytes)
    → length (2 ∷ 1 ∷ 6 ∷ 0 ∷ (a ++ (b ++ (c ++ (d ++ (e ++ (f ++ g)))))))
      ≡ 4 + length a + length b + length c + length d + length e + length f + length g
parts_length a b c d e f g = omega (
  arith,
  length-append a (b ++ (c ++ (d ++ (e ++ (f ++ g))))),
  length-append b (c ++ (d ++ (e ++ (f ++ g)))),
  length-append c (d ++ (e ++ (f ++ g))),
  length-append d (e ++ (f ++ g)),
  length-append e (f ++ g),
  length-append f g,
)

length-bootp :
    (request : Bytes) (type : ℕ) (o : DhcpOptions)
    → Fits request type o
    → length (bootp request type o) ≡ 240
unfolding bootp
length-bootp request type o v =
    parts_length (slice 46 50 request) (replicate 8 0) yiaddr (replicate 8 0) (slice 70 76 request)
      (replicate 202 0) (0x63 ∷ 0x82 ∷ 0x53 ∷ 0x63 ∷ [])
    ∙ omega (
      arith,
      v.request_length,
      length-take {0} 4 (drop 46 request),
      length-drop {0} 46 request,
      length-take {0} 6 (drop 70 request),
      length-drop {0} 70 request,
      yiaddr_length,
    )
  where
    yiaddr : Bytes
    yiaddr = if not (type == 6) && not o.zero_yiaddr then offered_ip o else replicate 4 0

    yiaddr_length : length yiaddr ≡ 4
    yiaddr_length =
        if_both (λ (y : Bytes). length y ≡ 4) (not (type == 6) && not o.zero_yiaddr)
          v.offered_length refl

damage_dhcp_sound : (o : DhcpOptions) (frame : Bytes) → IsSound o → damage_dhcp o frame ≡ frame
unfolding damage_dhcp
damage_dhcp_sound o frame v = ground arith

module _ (request : Bytes) (type : ℕ) (o : DhcpOptions) (sound : IsSound o)
    (v : Fits request type o) where
  abbrev from : Bytes
  from = server_ip o

  abbrev to : Bytes
  to = destination_ip request o

  abbrev body : Bytes
  body = dhcp_body request type o

  abbrev ip_sum : ℕ
  ip_sum = header_sum (28 + length body) 0x12 0x34 64 17 from to

  datagram : IsUdpReply from to body 67 68
  datagram = record {
    source_length = v.ip_length;
    destination_length = v.destination_length;
    source_bytes = v.ip_bytes;
    destination_bytes = v.destination_bytes;
    payload_bytes = v.body_bytes;
    source_port = omega arith;
    destination_port = omega arith;
    payload_length = v.body_length;
  }

  header : IsHeader (28 + length body) 0x12 0x34 64 17 from to
  header = record {
    source_length = v.ip_length;
    destination_length = v.destination_length;
    source_bytes = v.ip_bytes;
    destination_bytes = v.destination_bytes;
    total_bound = omega (arith, v.body_length);
    id_bound = omega arith;
    ttl_bound = omega arith;
    protocol_bound = omega arith;
  }

  -- The reply is the frame of its parts.
  build_dhcp_reply-eq :
      build_dhcp_reply request type o
      ≡ dhcp_frame
          (destination_mac request o)
          (server_mac o)
          from
          to
          body
          ip_sum
          (plain_sum from to body 67 68 datagram)
  unfolding build_dhcp_reply sound_dhcp_reply
  build_dhcp_reply-eq =
      if_false o.bad_udp_checksum _ _ sound.checksum
      ∙ ap (with_udp_checksum (from ++ to) (8 + length body)) (
          damage_dhcp_sound o (sound_dhcp_reply request type o) sound
          ∙ ap
              (λ h.
                destination_mac request o
                ++ (server_mac o ++ (8 ∷ 0 ∷ (h ++ udp_with body 67 68 0))))
              (ip_header-eq (28 + length body) 0x12 0x34 64 17 from to header))
      ∙ Stores-frame body ip_sum (destination_mac request o) (server_mac o) from to v.ether_length
          v.mac_length v.ip_length v.destination_length

  body_at : (i : ℕ) → byte_at body (240 + i) ≡ byte_at (dhcp_options type o) i
  unfolding dhcp_body
  body_at i =
      get_or-append (bootp request type o) (dhcp_options type o) i 240 0
        (length-bootp request type o v)

  body_long : 244 ≤ length body
  unfolding dhcp_body dhcp_options
  body_long = omega (
    arith,
    length-append (bootp request type o) (dhcp_options type o),
    length-bootp request type o v,
    length-append (unless o.missing_server (54 ∷ 4 ∷ server_ip o))
        ((if type == 6 then [] else lease_options o) ++ (255 ∷ [])),
    length-append (if type == 6 then [] else lease_options o) (255 ∷ []),
  )

  option_first :
      (byte_at (dhcp_options type o) 0 ≡ 53)
      × (byte_at (dhcp_options type o) 1 ≡ 1)
      × (byte_at (dhcp_options type o) 2 ≡ type)
  unfolding dhcp_options
  option_first = (refl, refl, refl)

  -- The message type of the reply is the one that was asked for.
  type_read : dhcp_message_type (build_dhcp_reply request type o) ≡ type
  type_read =
      ap dhcp_message_type build_dhcp_reply-eq
      ∙ dhcp_message_type-first type frame (omega (arith, starts.1, body_long)) starts.2 starts.3
          (at 240 ∙ body_at 0 ∙ option_first.0) (at 241 ∙ body_at 1 ∙ option_first.1)
          (at 242 ∙ body_at 2 ∙ option_first.2)
    where
      c : ℕ
      c = plain_sum from to body 67 68 datagram

      frame : Bytes
      frame = dhcp_frame (destination_mac request o) (server_mac o) from to body ip_sum c

      starts : Starts body ip_sum c (destination_mac request o) (server_mac o) from to
      starts =
          Starts-frame body ip_sum c (destination_mac request o) (server_mac o) from to
            v.ether_length v.mac_length v.ip_length v.destination_length

      at : (i : ℕ) → byte_at frame (42 + i) ≡ byte_at body i
      at i = get_or-drop 42 i frame 0 ∙ ap (λ t. byte_at t i) starts.0

  datagram_read :
      udp_datagram (build_dhcp_reply request type o)
      ≡ some (record {
        ether_source = server_mac o;
        source = from;
        destination = to;
        source_port = 67;
        destination_port = 68;
        payload = body;
        ip =
            header_with (28 + length body) 0x12 0x34 64 17 from to ip_sum
            ++ udp_with body 67 68 (plain_sum from to body 67 68 datagram);
      })
  datagram_read =
      ap udp_datagram build_dhcp_reply-eq
      ∙ ap
          (λ t. udp_datagram (
            destination_mac request o
            ++ (server_mac o
                ++ (8 ∷ 0 ∷ (header_with (28 + length body) 0x12 0x34 64 17 from to ip_sum ++ t)))))
          (sym (append-nil udp))
      ∙ udp_datagram-frame udp [] (28 + length body) ip_sum 0x12 0x34 64 (destination_mac request o)
          (server_mac o) from to v.ether_length v.mac_length v.ip_length v.destination_length
          (record {
            header_sum_ok = ip_header-verifies (28 + length body) 0x12 0x34 64 17 from to header;
            udp_sum_ok = rw len (plain_sum-verifies from to body 67 68 datagram);
            total_is = omega arith;
            length_is = omega arith;
            long = omega arith;
            small = omega (arith, v.body_length);
          })
    where
      udp : Bytes
      udp = udp_with body 67 68 (plain_sum from to body 67 68 datagram)

      len : word_at udp 4 ≡ 8 + length body
      len = omega arith

  -- A reply with no fault is read by both readers: its message type is the one asked for, and its
  -- datagram goes from the server's address and port 67 to the chosen address and port 68 with the
  -- BOOTP message and the options. The parts fit their fields, and there are at most 1472 bytes.
  pub build_dhcp_reply-read :
      (dhcp_message_type (build_dhcp_reply request type o) ≡ type)
      × (d : Datagram) × (udp_datagram (build_dhcp_reply request type o) ≡ some d)
      × (d.source ≡ server_ip o)
      × (d.destination ≡ destination_ip request o)
      × (d.source_port ≡ 67)
      × (d.destination_port ≡ 68)
      × (d.payload ≡ bootp request type o ++ dhcp_options type o)
  unfolding dhcp_body
  build_dhcp_reply-read = (type_read, _, datagram_read, refl, refl, refl, refl, refl)
