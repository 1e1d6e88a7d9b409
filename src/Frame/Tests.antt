-- ===== src/Frame/Tests.antt =====
-- The theorems on frames at concrete frames.
use sprinter_3c509b.Base.{
  pos, byte_at, drop, slice, ◌+◌, ◌≡◌, refl, true, false, none, some, [], ◌∷◌, ◌++◌, slice, length,
  replicate, Bytes, arith,
}
use sprinter_3c509b.Frame.Checksum.{checksum, put_checksum}
use sprinter_3c509b.Frame.Checksum.Put.{put_checksum-verifies}
use sprinter_3c509b.Frame.Icmp.{echo_part, icmp_echo_request}
use sprinter_3c509b.Frame.Icmp.Echo.{echo_part-answers}
use sprinter_3c509b.Frame.Arp.{ArpOptions, build_arp_request, build_arp_reply, is_arp_request}
use sprinter_3c509b.Frame.Arp.Answer.{IsReply, asks, answers, build_arp_reply-answers}
use sprinter_3c509b.Frame.Ip.{ip_header}
use sprinter_3c509b.Frame.Udp.{
  Datagram, UdpOptions, udp_datagram, udp_part, build_udp_reply, peer_mac as derived_mac,
}
use sprinter_3c509b.Frame.Udp.Reply.{build_udp_reply-read}
use sprinter_3c509b.Frame.Ntp.{NtpOptions, build_ntp_reply}
use sprinter_3c509b.Frame.Ntp.Reply.{build_ntp_reply-read}
use sprinter_3c509b.Frame.Tcp.{Segment, TcpOptions, tcp_segment, build_tcp_reply}
use sprinter_3c509b.Frame.Tcp.Reply.{build_tcp_reply-read}

abbrev our_mac : Bytes
our_mac = 2 ∷ 0 ∷ 0 ∷ 0 ∷ 0 ∷ 2 ∷ []

abbrev our_ip : Bytes
our_ip = 192 ∷ 168 ∷ 7 ∷ 2 ∷ []

abbrev peer_mac : Bytes
peer_mac = 2 ∷ 0 ∷ 0 ∷ 0 ∷ 0 ∷ 1 ∷ []

abbrev peer_ip : Bytes
peer_ip = 192 ∷ 168 ∷ 7 ∷ 1 ∷ []

-- A frame with an IP header without its checksum and an Echo Request of 12 bytes.
abbrev echo_frame : Bytes
echo_frame =
    2 ∷ 0 ∷ 0 ∷ 0 ∷ 0 ∷ 1 ∷ 2 ∷ 0 ∷ 0 ∷ 0 ∷ 0 ∷ 2 ∷ 8 ∷ 0 ∷ 0x45 ∷ 0 ∷ 0 ∷ 32 ∷ 0 ∷ 1 ∷ 0x40 ∷ 0
    ∷ 64 ∷ 1 ∷ 0 ∷ 0 ∷ 192 ∷ 168 ∷ 7 ∷ 2 ∷ 192 ∷ 168 ∷ 7 ∷ 1 ∷ 8 ∷ 0 ∷ 0 ∷ 0 ∷ 1 ∷ 2 ∷ 0 ∷ 1 ∷ 0xa5
    ∷ 0x5a ∷ 0xff ∷ 3 ∷ []

echo_frame-is_request : icmp_echo_request echo_frame ≡ true
unfolding icmp_echo_request
echo_frame-is_request = refl

put_checksum-verifies_example :
    checksum (slice 14 (14 + 20) (put_checksum echo_frame 14 20 (14 + (5 + 5)))) ≡ 0
put_checksum-verifies_example =
    put_checksum-verifies echo_frame 14 20 5 (omega arith) (omega arith) (omega arith)

echo_part-answers_example :
    let reply = echo_part echo_frame 12 in
    (length reply ≡ 12)
    × (byte_at reply 0 ≡ 0)
    × (byte_at reply 1 ≡ 0)
    × (drop 4 reply ≡ slice 38 46 echo_frame)
    × (checksum reply ≡ 0)
echo_part-answers_example =
    echo_part-answers echo_frame 12 (omega arith) (omega arith) (omega arith)

abbrev arp_options : ArpOptions
arp_options = record {
  mac = none;
  ip = none;
  bad_ether_source = false;
  foreign_destination = false;
  bad_opcode_high = false;
  requester_mac = none;
  requester_ip = none;
}

build_arp_reply-answers_example :
    (is_arp_request (build_arp_request peer_mac peer_ip (asks arp_options our_mac our_ip)) ≡ true)
    × IsReply
        (build_arp_reply
          (build_arp_request peer_mac peer_ip (asks arp_options our_mac our_ip))
          (answers arp_options peer_mac))
        peer_mac
        peer_ip
        our_mac
        our_ip
build_arp_reply-answers_example =
    build_arp_reply-answers arp_options arp_options peer_mac our_mac our_ip peer_ip peer_mac refl
      refl refl refl

abbrev query : Datagram
query = record {
  ether_source = our_mac;
  source = our_ip;
  destination = peer_ip;
  source_port = 40000;
  destination_port = 7;
  payload = 1 ∷ 2 ∷ 3 ∷ [];
  ip = [];
}

abbrev udp_options : UdpOptions
udp_options = record {
  mac = none;
  ip = none;
  payload = none;
  corrupt_payload = true;
  source_port = none;
  destination_port = none;
  ttl = none;
  foreign_source = false;
  foreign_destination = false;
  bad_ip_checksum = false;
  bad_udp_checksum = false;
  udp_length_delta = pos 0;
}

abbrev answer : Datagram
answer = record {
  ether_source = 2 ∷ 0 ∷ 0 ∷ 0 ∷ 0 ∷ 44 ∷ [];
  source = peer_ip;
  destination = our_ip;
  source_port = 7;
  destination_port = 40000;
  payload = 0 ∷ 2 ∷ 3 ∷ [];
  ip =
      ip_header 31 0x63 0x21 61 17 peer_ip our_ip
      ++ udp_part peer_ip our_ip 7 40000 (0 ∷ 2 ∷ 3 ∷ []);
}

build_udp_reply-read_example : udp_datagram (build_udp_reply query udp_options) ≡ some answer
unfolding derived_mac
build_udp_reply-read_example =
    build_udp_reply-read query udp_options
      (record {
        source = refl;
        destination = refl;
        ip_checksum = refl;
        udp_checksum = refl;
        delta = refl;
      })
      (record {
        ether_length = refl;
        mac_length = refl;
        parts = record {
          source_length = refl;
          destination_length = refl;
          source_bytes = omega arith;
          destination_bytes = omega arith;
          payload_bytes = omega arith;
          source_port = omega arith;
          destination_port = omega arith;
          payload_length = omega arith;
        };
        ttl = omega arith;
      })

abbrev opening : Segment
opening = record {
  ether_source = our_mac;
  source = our_ip;
  destination = peer_ip;
  source_port = 40000;
  destination_port = 80;
  sequence = 1000;
  acknowledgement = 0;
  flags = 2;
  window = 4096;
  mss = 1460;
  payload = [];
}

abbrev syn_ack : TcpOptions
syn_ack = record {
  mac = none;
  ip = none;
  payload = [];
  sequence = 0x10213040;
  acknowledgement = 1001;
  flags = 0x12;
  window = some 4096;
  mss = some 536;
  ttl = none;
}

abbrev syn_ack_read : Segment
syn_ack_read = record {
  ether_source = 2 ∷ 0 ∷ 0 ∷ 0 ∷ 0 ∷ 44 ∷ [];
  source = peer_ip;
  destination = our_ip;
  source_port = 80;
  destination_port = 40000;
  sequence = 0x10213040;
  acknowledgement = 1001;
  flags = 0x12;
  window = 4096;
  mss = 536;
  payload = [];
}

build_tcp_reply-read_example : tcp_segment (build_tcp_reply opening syn_ack) ≡ some syn_ack_read
build_tcp_reply-read_example = build_tcp_reply-read opening syn_ack (record {
  ether_length = refl;
  mac_length = refl;
  parts = record {
    source_length = refl;
    destination_length = refl;
    source_bytes = omega arith;
    destination_bytes = omega arith;
    payload_bytes = omega arith;
    source_port = omega arith;
    destination_port = omega arith;
    flags = omega arith;
    window = omega arith;
    payload_length = omega arith;
  };
  ports = omega arith;
  mss = omega arith;
  ttl = omega arith;
})

abbrev time_query : Datagram
time_query = record query {
  destination_port = 123;
  payload = replicate 40 0 ++ (1 ∷ 2 ∷ 3 ∷ 4 ∷ 5 ∷ 6 ∷ 7 ∷ 8 ∷ []);
}

abbrev ntp_options : NtpOptions
ntp_options = record {
  version = none;
  mode_value = none;
  leap = none;
  stratum = none;
  ntp_seconds = none;
  unix_seconds = some 1;
  stale_cookie = true;
  zero_transmit = false;
  truncated = false;
  truncate_at = none;
  source_port = none;
  destination_port = none;
  bad_checksum = false;
}

build_ntp_reply-read_example :
    (frame : Bytes) × (build_ntp_reply time_query ntp_options ≡ some frame)
    × (d : Datagram) × (udp_datagram frame ≡ some d)
    × (d.source ≡ peer_ip)
    × (d.destination ≡ our_ip)
    × (d.destination_port ≡ 40000)
    × (slice 24 32 d.payload ≡ 1 ∷ 2 ∷ 3 ∷ 4 ∷ 5 ∷ 6 ∷ 7 ∷ 9 ∷ [])
    × (slice 40 44 d.payload ≡ 0x83 ∷ 0xaa ∷ 0x7e ∷ 0x81 ∷ [])
build_ntp_reply-read_example = build_ntp_reply-read time_query ntp_options (record {
  ether_length = refl;
  source_length = refl;
  destination_length = refl;
  source_bytes = omega arith;
  destination_bytes = omega arith;
  payload_length = refl;
  payload_bytes = omega arith;
  stratum = omega arith;
  source_port = omega arith;
  destination_port = omega arith;
  whole = refl;
  checksum = refl;
  transmits = refl;
})
