-- ===== src/Peer/Respond.antt =====
-- `respond`: the answers to a frame that the card has transmitted, handler by handler in the order
-- of the source. A `return` of the source stops the handlers behind it as well.
pub mod Flow
pub mod Frames
pub mod Datagrams
pub mod ArpOnly
pub mod Wire
mod Tests
use sprinter_3c509b.Base.{
  ℕ, ◌+◌, ◌-◌, ◌%◌, Bool, true, false, not, ◌&&◌, ◌||◌, Option, none, some, List, [], ◌∷◌, ◌++◌,
  map, leb, ltb, ◌==◌, if◌then◌else◌, length, slice, Bytes, byte_at, flip, or_nonzero,
}
use sprinter_3c509b.Card.{Reply, Peers}
use sprinter_3c509b.Frame.Arp.{is_arp_request, build_arp_reply, build_arp_request}
use sprinter_3c509b.Frame.Checksum.{put_checksum}
use sprinter_3c509b.Frame.Dhcp.{dhcp_message_type, build_dhcp_reply}
use sprinter_3c509b.Frame.Dns.{build_dns_reply}
use sprinter_3c509b.Frame.Icmp.{
  IcmpOptions, icmp_echo_request, build_icmp_reply, build_icmp_unreachable,
  build_incoming_echo_request,
}
use sprinter_3c509b.Frame.Ntp.{build_ntp_reply}
use sprinter_3c509b.Frame.Tcp.{Segment, tcp_segment}
use sprinter_3c509b.Frame.Udp.{Datagram, UdpOptions, udp_datagram, build_udp_reply}
use sprinter_3c509b.Peer.Scenario.{
  DhcpPart, ArpPart, IcmpPart, TcpPart, DnsPart, DnsParts, server_at, NtpPart, UdpPart, Parts,
  Network,
}
use sprinter_3c509b.Peer.Tcp.{at_once}
use sprinter_3c509b.Peer.Tcp.Credit.{credit_client_ack}
use sprinter_3c509b.Peer.Tcp.Respond.{respond_tcp}
use sprinter_3c509b.Peer.Tftp.{TftpOptions, respond_tftp}
use sprinter_3c509b.Peer.Respond.Flow.{Turn, answer, stop, with_part, with_read}
use sprinter_3c509b.Peer.Respond.Frames.{
  respond_dhcp, respond_arp, respond_icmp, respond_to_segment, respond_to_ftp,
}
use sprinter_3c509b.Peer.Respond.Datagrams.{respond_dns, respond_ntp, respond_to_tftp, respond_udp}

module _ (parts : Parts) where
  -- The handlers that a frame, a segment and a datagram go through.
  abbrev pub on_frame : Bytes → Turn → Turn
  on_frame frame t =
      with_part parts.icmp (respond_icmp frame)
        (with_part parts.arp (respond_arp frame) (with_part parts.dhcp (respond_dhcp frame) t))

  abbrev pub on_segment : Segment → Turn → Turn
  on_segment segment t =
      with_part parts.ftp (respond_to_ftp segment t.network.tcp.connections)
        (with_part parts.tcp (λ part. respond_to_segment part segment) t)

  abbrev pub on_datagram : Bytes → Datagram → Turn → Turn
  on_datagram frame datagram t = with_part parts.udp (respond_udp datagram frame) (
      with_part parts.tftp (respond_to_tftp datagram)
        (with_part parts.ntp (respond_ntp datagram) (with_part parts.dns (respond_dns datagram) t)))

  -- The whole turn of a frame.
  abbrev pub turn : Bytes → Network → Turn
  turn frame network = with_read (udp_datagram frame) (on_datagram frame) (
      with_read (tcp_segment frame) on_segment
        (on_frame frame (record { network = network; out = []; stopped = false })))

  unfoldable pub respond : Bytes → Network → Network × List Reply
  unfolding respond_dhcp respond_arp respond_icmp respond_to_segment respond_to_ftp respond_dns
      respond_ntp respond_to_tftp respond_udp
  respond frame network = let t = turn frame network in (t.network, t.out)

  -- The peers of the card: `respond`, and `creditClientAck` on the TCP connections.
  unfoldable pub wire : Peers Network
  unfolding respond credit_client_ack
  wire = record {
    respond = respond;
    credit_client_ack =
        λ frame network. record network { tcp = credit_client_ack frame network.tcp };
  }
