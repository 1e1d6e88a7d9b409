-- ===== src/Peer/Respond/Datagrams.antt =====
-- The handlers of `respond` that read a datagram: DNS, NTP, TFTP and the UDP echo.
use sprinter_3c509b.Base.{
  pos, ◌+◌, ◌-◌, ◌%◌, true, false, not, ◌&&◌, ◌||◌, none, some, List, ◌∷◌, ◌++◌, map, leb, ltb,
  ◌==◌, if◌then◌else◌, length, slice, Bytes, flip, or_nonzero,
}
use sprinter_3c509b.Card.{Reply}
use sprinter_3c509b.Frame.Arp.{build_arp_request}
use sprinter_3c509b.Frame.Checksum.{put_checksum}
use sprinter_3c509b.Frame.Dns.{build_dns_reply}
use sprinter_3c509b.Frame.Icmp.{build_icmp_unreachable, build_incoming_echo_request}
use sprinter_3c509b.Frame.Ntp.{build_ntp_reply}
use sprinter_3c509b.Frame.Udp.{Datagram, UdpOptions, build_udp_reply}
use sprinter_3c509b.Peer.Scenario.{DnsPart, DnsParts, server_at, NtpPart, UdpPart}
use sprinter_3c509b.Peer.Tftp.{TftpOptions, respond_tftp}
use sprinter_3c509b.Peer.Respond.Flow.{
  Turn, answer, stop, at_once_if, built, built_if, after_polls, frame_if, first_of,
}

-- The options of a reply with no field set.
abbrev pub plain_udp : UdpOptions
plain_udp = record {
  mac = none;
  ip = none;
  payload = none;
  corrupt_payload = false;
  source_port = none;
  destination_port = none;
  ttl = none;
  foreign_source = false;
  foreign_destination = false;
  bad_ip_checksum = false;
  bad_udp_checksum = false;
  udp_length_delta = pos 0;
}

module _ (datagram : Datagram) where
  abbrev pub dns_replies : DnsPart → List Reply
  dns_replies part =
      let o = part.options in
      let bad_checksum = record o {
        address = first_of part.bad_checksum_address o.address;
        bad_checksum = true;
      } in
      let bad_length = record o {
        address = first_of part.bad_length_address o.address;
        udp_length_delta = pos 1;
      } in
      built_if part.stale_before_reply (build_dns_reply datagram (record o { stale_id = true }))
      ++ (built_if part.foreign_port_before_reply
            (build_dns_reply datagram (record o { source_port = some 54 }))
          ++ (built_if part.bad_checksum_before_reply (build_dns_reply datagram bad_checksum)
              ++ (built_if part.bad_length_before_reply (build_dns_reply datagram bad_length)
                  ++ (built_if part.malformed_before_reply
                        (build_dns_reply datagram (record o { pointer_loop = true }))
                      ++ built (build_dns_reply datagram o)))))

  unfoldable pub respond_dns : DnsParts → Turn → Turn
  respond_dns parts t =
      let part = server_at datagram.destination parts.common parts.servers in
      let count = t.network.dns_request_count + 1 in
      let counted = record t { network = record t.network { dns_request_count = count } } in
      if not (datagram.destination_port == 53)
      then t
      else if leb count part.drop || part.is_silent
      then stop counted
      else answer (dns_replies part) counted

  abbrev pub ntp_replies : NtpPart → List Reply
  ntp_replies part =
      let o = part.options in
      built_if part.stale_before_reply (build_ntp_reply datagram (record o { stale_cookie = true }))
      ++ (built_if part.foreign_port_before_reply
            (build_ntp_reply datagram (record o { source_port = some 124 }))
          ++ (built_if part.bad_checksum_before_reply
                (build_ntp_reply datagram (record o { bad_checksum = true }))
              ++ built (build_ntp_reply datagram o)))

  -- The only handler that does not return where it drops the request.
  unfoldable pub respond_ntp : NtpPart → Turn → Turn
  respond_ntp part t =
      let count = t.network.ntp_request_count + 1 in
      let counted = record t { network = record t.network { ntp_request_count = count } } in
      if not (datagram.destination_port == 123)
      then t
      else if ltb part.drop count && not part.is_silent
      then answer (ntp_replies part) counted
      else counted

  unfoldable pub respond_to_tftp : TftpOptions → Turn → Turn
  respond_to_tftp o t =
      let r = respond_tftp o datagram t.network.tftp in
      answer r.1 (record t { network = record t.network { tftp = r.0 } })

  -- The frames that a scenario puts in front of the answer.
  unfoldable pub udp_faults : UdpPart → List Bytes
  udp_faults part =
      let next_port = or_nonzero (some ((datagram.destination_port + 1) % 65536)) 1 in
      let reply = build_udp_reply datagram in
      frame_if part.unrelated_before_reply
        (reply (record plain_udp { source_port = some next_port }))
      ++ (frame_if part.foreign_source_before_reply
            (reply (record plain_udp { foreign_source = true }))
          ++ (frame_if part.foreign_destination_before_reply
                (reply (record plain_udp { foreign_destination = true }))
              ++ (frame_if part.bad_ip_before_reply
                    (reply (record plain_udp { bad_ip_checksum = true }))
                  ++ (frame_if part.bad_udp_before_reply
                        (reply (record plain_udp { bad_udp_checksum = true }))
                      ++ frame_if part.corrupt_before_reply
                          (reply (record plain_udp { corrupt_payload = true }))))))

  module _ (frame : Bytes) where
    -- The answer itself: a reply, or an ICMP error, damaged where it is to belong elsewhere.
    abbrev pub udp_answer : UdpPart → Bytes
    udp_answer part =
        let unreachable = build_icmp_unreachable frame part.echo in
        if not part.is_unreachable
        then build_udp_reply datagram part.options
        else if part.unrelated_unreachable
        then put_checksum (flip 65 unreachable) 34 (length unreachable - 34) 36
        else unreachable

    -- What comes in by itself, before the replies go out.
    abbrev pub udp_incoming : UdpPart → List Reply
    udp_incoming part =
        at_once_if part.request_before_reply (build_incoming_echo_request frame part.echo)
        ++ at_once_if part.arp_before_reply
            (build_arp_request (slice 6 12 frame) (slice 26 30 frame) part.arp)

    unfoldable pub respond_udp : UdpPart → Turn → Turn
    unfolding udp_faults
    respond_udp part t =
        let count = t.network.udp_request_count + 1 in
        let counted = record t { network = record t.network { udp_request_count = count } } in
        let last = udp_answer part in
        let again = frame_if part.duplicate last in
        if not (part.port == 0 || datagram.destination_port == part.port)
        then t
        else if leb count part.drop || part.is_silent
        then stop counted
        else answer
            (udp_incoming part
              ++ map (after_polls part.delay_polls) (udp_faults part ++ (last ∷ again)))
            counted
