-- ===== src/Frame/Ntp.antt =====
-- `buildNtpReply`: the answer to an NTP request in a UDP datagram.
pub mod Reply
use sprinter_3c509b.Base.{
  pos, ℕ, ◌+◌, ◌*◌, ◌%◌, Bool, false, not, Option, none, some, [], ◌∷◌, ◌++◌, ◌==◌, if◌then◌else◌,
  length, take, slice, replicate, Bytes, flip, or_default, bytes32,
}
use sprinter_3c509b.Frame.Udp.{Datagram, UdpOptions, build_udp_reply}

-- The fields of `options` that `buildNtpReply` reads.
pub record NtpOptions : Type 0 where
  pub version : Option ℕ
  pub mode_value : Option ℕ
  pub leap : Option ℕ
  pub stratum : Option ℕ
  pub ntp_seconds : Option ℕ
  pub unix_seconds : Option ℕ
  pub stale_cookie : Bool
  pub zero_transmit : Bool
  pub truncated : Bool
  pub truncate_at : Option ℕ
  pub source_port : Option ℕ
  pub destination_port : Option ℕ
  pub bad_checksum : Bool

-- The client's transmit timestamp, which the reply must echo.
abbrev pub cookie : Bytes → NtpOptions → Bytes
cookie request o = let c = slice 40 48 request in if o.stale_cookie then flip 7 c else c

-- The seconds since 1900 that the server gives.
abbrev pub server_seconds : NtpOptions → ℕ
server_seconds o =
    or_default o.ntp_seconds (or_default o.unix_seconds 1_735_732_799 + 2_208_988_800)

unfoldable pub ntp_message : Bytes → NtpOptions → Bytes
ntp_message request o =
    let first =
      or_default o.leap 0 % 4 * 64
      + or_default o.version 4 % 8 * 8
      + or_default o.mode_value 4 % 8 in
    let transmit =
      if o.zero_transmit
      then replicate 8 0
      else bytes32 (server_seconds o) ++ (0x80 ∷ 0 ∷ 0 ∷ 0 ∷ []) in
    let payload =
      (first ∷ or_default o.stratum 2 ∷ 6 ∷ 0xec ∷ replicate 20 0)
      ++ (cookie request o ++ (replicate 8 0 ++ transmit)) in
    if o.truncated then take (or_default o.truncate_at 44) payload else payload

-- The options that are passed on to `buildUdpReply`.
abbrev pub ntp_transport : Datagram → NtpOptions → Bytes → UdpOptions
ntp_transport request o payload = record {
  mac = none;
  ip = none;
  payload = some payload;
  corrupt_payload = false;
  source_port = some (or_default o.source_port 123);
  destination_port = some (or_default o.destination_port request.source_port);
  ttl = none;
  foreign_source = false;
  foreign_destination = false;
  bad_ip_checksum = false;
  bad_udp_checksum = o.bad_checksum;
  udp_length_delta = pos 0;
}

unfoldable pub build_ntp_reply : Datagram → NtpOptions → Option Bytes
unfolding ntp_message build_udp_reply
build_ntp_reply request o =
    if not (length request.payload == 48)
    then none
    else some (build_udp_reply request (ntp_transport request o (ntp_message request.payload o)))
