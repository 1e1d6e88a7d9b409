-- ===== src/Peer/Respond/Frames.antt =====
-- The handlers of `respond` that read the frame itself: DHCP, ARP, ICMP, TCP and FTP.
use sprinter_3c509b.Base.{
  ℕ, ◌+◌, true, not, ◌&&◌, ◌||◌, List, [], ◌∷◌, ◌++◌, map, leb, ◌==◌, if◌then◌else◌, slice, Bytes,
}
use sprinter_3c509b.Card.{Reply}
use sprinter_3c509b.Frame.Arp.{is_arp_request, build_arp_reply, build_arp_request}
use sprinter_3c509b.Frame.Dhcp.{dhcp_message_type, build_dhcp_reply}
use sprinter_3c509b.Frame.Icmp.{
  icmp_echo_request, build_icmp_reply, build_icmp_unreachable, build_incoming_echo_request,
}
use sprinter_3c509b.Frame.Tcp.{Segment}
use sprinter_3c509b.Peer.Ftp.Objects.{kept_control}
use sprinter_3c509b.Peer.Ftp.Respond.{respond_ftp}
use sprinter_3c509b.Peer.Ftp.{FtpOptions, Desk}
use sprinter_3c509b.Peer.Scenario.{DhcpPart, ArpPart, IcmpPart, TcpPart}
use sprinter_3c509b.Peer.Tcp.{Connections, at_once}
use sprinter_3c509b.Peer.Tcp.Respond.{respond_tcp}
use sprinter_3c509b.Peer.Respond.Flow.{Turn, answer, stop, at_once_if, after_polls, frame_if}

module _ (frame : Bytes) where
  unfoldable pub discovered : DhcpPart → Turn → Turn
  discovered part t =
      let count = t.network.dhcp_discover_count + 1 in
      let counted = record t { network = record t.network { dhcp_discover_count = count } } in
      if leb count part.drop_discover || part.is_silent
      then stop counted
      else answer (at_once (build_dhcp_reply frame 2 part.options) ∷ []) counted

  unfoldable pub requested : DhcpPart → Turn → Turn
  requested part t =
      let count = t.network.dhcp_request_count + 1 in
      let counted = record t { network = record t.network { dhcp_request_count = count } } in
      let type = if part.is_nak then 6 else 5 in
      if leb count part.drop_request || part.is_silent
      then stop counted
      else answer (at_once (build_dhcp_reply frame type part.options) ∷ []) counted

  unfoldable pub respond_dhcp : DhcpPart → Turn → Turn
  unfolding discovered requested
  respond_dhcp part t =
      let type = dhcp_message_type frame in
      let count = t.network.dhcp_release_count + 1 in
      if type == 7
      then record t { network = record t.network { dhcp_release_count = count } }
      else if type == 1
      then discovered part t
      else if type == 3
      then requested part t
      else t

  unfoldable pub respond_arp : ArpPart → Turn → Turn
  respond_arp part t =
      let count = t.network.arp_request_count + 1 in
      let counted = record t { network = record t.network { arp_request_count = count } } in
      let incoming = build_arp_request (slice 22 28 frame) (slice 28 32 frame) part.options in
      if not (is_arp_request frame)
      then t
      else if leb count part.drop || part.is_silent
      then stop counted
      else answer
          (at_once_if (part.request_before_reply && count == 1) incoming
            ++ (at_once (build_arp_reply frame part.options) ∷ []))
          counted

  -- The echo requests that come in before the first answer.
  abbrev pub incoming_echoes : IcmpPart → ℕ → List Reply
  incoming_echoes part count =
      let bad = record part.options { bad_icmp_checksum = true } in
      at_once_if (part.bad_request_before_reply && count == 1)
        (build_incoming_echo_request frame bad)
      ++ at_once_if (part.request_before_reply && count == 1)
          (build_incoming_echo_request frame part.options)

  -- `replies`: the answer with what the scenario puts in front of it.
  unfoldable pub icmp_replies : IcmpPart → List Bytes
  icmp_replies part =
      let o = part.options in
      let unrelated = record o { unrelated = true } in
      frame_if part.unrelated_before_reply (build_icmp_reply frame unrelated)
      ++ (frame_if part.foreign_source_before_reply
            (build_icmp_reply frame (record o { foreign_source = true }))
          ++ (frame_if part.foreign_destination_before_reply
                (build_icmp_reply frame (record o { foreign_destination = true }))
              ++ (frame_if part.bad_ip_before_reply
                    (build_icmp_reply frame (record o { bad_ip_checksum = true }))
                  ++ (frame_if part.bad_icmp_before_reply
                        (build_icmp_reply frame (record o { bad_icmp_checksum = true }))
                      ++ (frame_if part.corrupt_before_reply
                            (build_icmp_reply frame (record o { corrupt_payload = true }))
                          ++ (frame_if
                                (part.unrelated_unreachable_before_reply
                                  || part.only_unrelated_unreachable)
                                (build_icmp_unreachable frame unrelated)
                              ++ frame_if (not part.only_unrelated_unreachable) (
                                  if part.is_unreachable
                                  then build_icmp_unreachable frame o
                                  else build_icmp_reply frame o)))))))

  -- The answer that the card receives with a status error.
  abbrev pub damaged_if : IcmpPart → List Reply
  damaged_if part =
      if part.rx_status_before_reply
      then record (at_once (build_icmp_reply frame part.options)) { status_error = true } ∷ []
      else []

  unfoldable pub respond_icmp : IcmpPart → Turn → Turn
  unfolding icmp_replies
  respond_icmp part t =
      let count = t.network.icmp_request_count + 1 in
      let counted = record t { network = record t.network { icmp_request_count = count } } in
      if not (icmp_echo_request frame)
      then t
      else if leb count part.drop || part.is_silent
      then stop counted
      else answer
          (incoming_echoes part count
            ++ (damaged_if part ++ map (after_polls part.delay_polls) (icmp_replies part)))
          counted

unfoldable pub respond_to_segment : TcpPart → Segment → Turn → Turn
respond_to_segment part segment t =
    let r = respond_tcp part.options segment t.network.tcp in
    if part.port == 0 || segment.destination_port == part.port
    then answer r.1 (record t { network = record t.network { tcp = r.0 } })
    else t

-- The handler of FTP works on the connections that the handler of TCP leaves; `before` is the table
-- that this one found.
unfoldable pub respond_to_ftp : Segment → Connections → FtpOptions → Turn → Turn
unfolding respond_ftp
respond_to_ftp segment before ftp t =
    let n = t.network in
    let control = kept_control before n.tcp.connections n.ftp.control in
    let d : Desk = record {
      responder = n.tcp;
      ftp = record n.ftp { control = control };
      out = t.out;
    } in
    let d' = respond_ftp ftp segment d in
    record t { network = record n { tcp = d'.responder; ftp = d'.ftp }; out = d'.out }
