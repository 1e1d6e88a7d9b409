-- ===== src/Frame/Dhcp/Tests.antt =====
-- The theorem on DHCP replies at a concrete request.
use sprinter_3c509b.Base.{
  ◌≡◌, refl, false, true, none, some, ◌++◌, arith, replicate, Bytes, [], ◌∷◌,
}
use sprinter_3c509b.Frame.Udp.{Datagram, udp_datagram}
use sprinter_3c509b.Frame.Dhcp.{
  DhcpOptions, dhcp_message_type, build_dhcp_reply, bootp, dhcp_options, dhcp_body, lease_options,
}
use sprinter_3c509b.Frame.Dhcp.Reply.{build_dhcp_reply-read}

abbrev request : Bytes
request = replicate 300 7

-- A reply sent to the requester's address, without a router.
abbrev options : DhcpOptions
options = record {
  server_mac = none;
  server_ip = none;
  offered_ip = none;
  mask = none;
  router = none;
  dns = none;
  lease = some 86400;
  foreign_destination = false;
  unicast_reply = true;
  zero_yiaddr = false;
  missing_server = false;
  bad_mask_length = false;
  bad_router_length = false;
  bad_dns_length = false;
  bad_lease_length = false;
  omit_mask = false;
  omit_router = true;
  omit_dns = false;
  missing_lease = false;
  bad_xid = false;
  bad_chaddr = false;
  bad_cookie = false;
  bad_options = false;
  bad_udp_checksum = false;
}

build_dhcp_reply-read_example :
    (dhcp_message_type (build_dhcp_reply request 5 options) ≡ 5)
    × (d : Datagram) × (udp_datagram (build_dhcp_reply request 5 options) ≡ some d)
    × (d.source ≡ 192 ∷ 168 ∷ 7 ∷ 1 ∷ [])
    × (d.destination ≡ 7 ∷ 7 ∷ 7 ∷ 7 ∷ [])
    × (d.source_port ≡ 67)
    × (d.destination_port ≡ 68)
    × (d.payload ≡ bootp request 5 options ++ dhcp_options 5 options)
unfolding bootp dhcp_options dhcp_body lease_options
build_dhcp_reply-read_example =
    build_dhcp_reply-read request 5 options
      (record { xid = refl; chaddr = refl; cookie = refl; options = refl; checksum = refl })
      (record {
        request_length = omega arith;
        ether_length = refl;
        mac_length = refl;
        ip_length = refl;
        destination_length = refl;
        offered_length = refl;
        ip_bytes = omega arith;
        destination_bytes = omega arith;
        body_bytes = omega arith;
        body_length = omega arith;
      })
