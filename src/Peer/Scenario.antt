-- ===== src/Peer/Scenario.antt =====
-- What `respond` reads of the scenario, part by part, and what it counts. The options of the frame
-- builders are those of their modules; a number that the source tests by `||` is 0 where it is
-- missing, and `is_silent` is `mode === 'drop'`.
use sprinter_3c509b.Base.{ℕ, Bool, Option, List, [], ◌∷◌, Bytes, equal, if◌then◌else◌}
use sprinter_3c509b.Frame.Arp.{ArpOptions}
use sprinter_3c509b.Frame.Dhcp.{DhcpOptions}
use sprinter_3c509b.Frame.Dns.{DnsOptions}
use sprinter_3c509b.Frame.Icmp.{IcmpOptions}
use sprinter_3c509b.Frame.Ntp.{NtpOptions}
use sprinter_3c509b.Frame.Udp.{UdpOptions}
use sprinter_3c509b.Peer.Ftp.{FtpOptions, FtpState}
use sprinter_3c509b.Peer.Tcp.{Options, Responder}
use sprinter_3c509b.Peer.Tftp.{TftpOptions, Server}

pub record DhcpPart : Type 0 where
  pub options : DhcpOptions
  pub is_silent : Bool
  pub is_nak : Bool
  pub drop_discover : ℕ
  pub drop_request : ℕ

pub record ArpPart : Type 0 where
  pub options : ArpOptions
  pub is_silent : Bool
  pub drop : ℕ
  pub request_before_reply : Bool

pub record IcmpPart : Type 0 where
  pub options : IcmpOptions
  pub is_silent : Bool
  pub drop : ℕ
  pub is_unreachable : Bool
  pub bad_request_before_reply : Bool
  pub request_before_reply : Bool
  pub unrelated_before_reply : Bool
  pub foreign_source_before_reply : Bool
  pub foreign_destination_before_reply : Bool
  pub bad_ip_before_reply : Bool
  pub bad_icmp_before_reply : Bool
  pub corrupt_before_reply : Bool
  pub unrelated_unreachable_before_reply : Bool
  pub only_unrelated_unreachable : Bool
  pub rx_status_before_reply : Bool
  pub delay_polls : ℕ

-- `port` is 0 where the scenario names none.
pub record TcpPart : Type 0 where
  pub options : Options
  pub port : ℕ

pub record DnsPart : Type 0 where
  pub options : DnsOptions
  pub is_silent : Bool
  pub drop : ℕ
  pub stale_before_reply : Bool
  pub foreign_port_before_reply : Bool
  pub bad_checksum_before_reply : Bool
  pub bad_checksum_address : Option Bytes
  pub bad_length_before_reply : Bool
  pub bad_length_address : Option Bytes
  pub malformed_before_reply : Bool

-- The DNS scenario, and its `servers` by address, each with the fields of its own put in place of
-- those of the scenario.
pub record DnsParts : Type 0 where
  pub common : DnsPart
  pub servers : List (Bytes × DnsPart)

abbrev pub server_at : Bytes → DnsPart → List (Bytes × DnsPart) → DnsPart
server_at ip common [] = common
server_at ip common ((address, part) ∷ servers) =
    if equal address ip then part else server_at ip common servers

pub record NtpPart : Type 0 where
  pub options : NtpOptions
  pub is_silent : Bool
  pub drop : ℕ
  pub stale_before_reply : Bool
  pub foreign_port_before_reply : Bool
  pub bad_checksum_before_reply : Bool

-- `echo` and `arp` are the fields of the same scenario that the builders of those frames read;
-- `port` is 0 where the scenario names none.
pub record UdpPart : Type 0 where
  pub options : UdpOptions
  pub echo : IcmpOptions
  pub arp : ArpOptions
  pub port : ℕ
  pub is_silent : Bool
  pub drop : ℕ
  pub is_unreachable : Bool
  pub unrelated_unreachable : Bool
  pub unrelated_before_reply : Bool
  pub foreign_source_before_reply : Bool
  pub foreign_destination_before_reply : Bool
  pub bad_ip_before_reply : Bool
  pub bad_udp_before_reply : Bool
  pub corrupt_before_reply : Bool
  pub request_before_reply : Bool
  pub arp_before_reply : Bool
  pub duplicate : Bool
  pub delay_polls : ℕ

-- The scenario.
pub record Parts : Type 0 where
  pub dhcp : Option DhcpPart
  pub arp : Option ArpPart
  pub icmp : Option IcmpPart
  pub tcp : Option TcpPart
  pub ftp : Option FtpOptions
  pub dns : Option DnsParts
  pub ntp : Option NtpPart
  pub tftp : Option TftpOptions
  pub udp : Option UdpPart

-- The counters and the states of the responders.
pub record Network : Type 0 where
  pub dhcp_discover_count : ℕ
  pub dhcp_request_count : ℕ
  pub dhcp_release_count : ℕ
  pub arp_request_count : ℕ
  pub icmp_request_count : ℕ
  pub dns_request_count : ℕ
  pub ntp_request_count : ℕ
  pub udp_request_count : ℕ
  pub tcp : Responder
  pub ftp : FtpState
  pub tftp : Server
