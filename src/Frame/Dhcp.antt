-- ===== src/Frame/Dhcp.antt =====
-- `dhcpMessageType` and `buildDhcpReply`: DHCP over UDP.
pub mod Layout
pub mod Reply
mod Tests
use sprinter_3c509b.Base.{
  ℕ, zero, suc, ◌+◌, ◌-◌, Bool, not, ◌||◌, ◌&&◌, Option, none, some, [], ◌∷◌, ◌++◌, leb, ltb, ◌==◌,
  if◌then◌else◌, length, drop, slice, set, replicate, Bytes, byte_at, high, low, flip, or_default,
  or_nonzero, bytes32,
}
use sprinter_3c509b.Frame.Checksum.{checksum, put_word}
use sprinter_3c509b.Frame.Ip.{ip_header}
use sprinter_3c509b.Frame.Udp.{pseudo}

-- The loop over the options, from `i` on: the value of option 53, or 0. Each round moves on by at
-- least a byte, so the length of the frame is enough fuel.
unfoldable pub find_type : ℕ → Bytes → ℕ → ℕ
find_type zero frame i = 0
find_type (suc fuel) frame i =
    let code = byte_at frame i in
    let size = byte_at frame (i + 1) in
    let rest = find_type fuel frame (if code == 0 then i + 1 else i + 2 + size) in
    if leb (length frame) i || code == 255
    then 0
    else if code == 0
    then rest
    else if leb (length frame) (i + 1)
    then 0
    else if code == 53 && size == 1 && ltb (i + 2) (length frame)
    then byte_at frame (i + 2)
    else rest

unfoldable pub dhcp_message_type : Bytes → ℕ
unfolding find_type
dhcp_message_type frame =
    if ltb (length frame) 286 || not (byte_at frame 12 == 8) || not (byte_at frame 13 == 0)
    then 0
    else find_type (length frame) frame 282

-- The fields of `options` that `buildDhcpReply` reads; `dns` is the flattened list.
pub record DhcpOptions : Type 0 where
  pub server_mac : Option Bytes
  pub server_ip : Option Bytes
  pub offered_ip : Option Bytes
  pub mask : Option Bytes
  pub router : Option Bytes
  pub dns : Option Bytes
  pub lease : Option ℕ
  pub foreign_destination : Bool
  pub unicast_reply : Bool
  pub zero_yiaddr : Bool
  pub missing_server : Bool
  pub bad_mask_length : Bool
  pub bad_router_length : Bool
  pub bad_dns_length : Bool
  pub bad_lease_length : Bool
  pub omit_mask : Bool
  pub omit_router : Bool
  pub omit_dns : Bool
  pub missing_lease : Bool
  pub bad_xid : Bool
  pub bad_chaddr : Bool
  pub bad_cookie : Bool
  pub bad_options : Bool
  pub bad_udp_checksum : Bool

abbrev pub server_mac : DhcpOptions → Bytes
server_mac o = or_default o.server_mac (2 ∷ 0 ∷ 0 ∷ 0 ∷ 0 ∷ 1 ∷ [])

abbrev pub server_ip : DhcpOptions → Bytes
server_ip o = or_default o.server_ip (192 ∷ 168 ∷ 7 ∷ 1 ∷ [])

abbrev pub offered_ip : DhcpOptions → Bytes
offered_ip o = or_default o.offered_ip (192 ∷ 168 ∷ 7 ∷ 100 ∷ [])

abbrev pub destination_mac : Bytes → DhcpOptions → Bytes
destination_mac request o =
    if o.foreign_destination
    then 2 ∷ 9 ∷ 9 ∷ 9 ∷ 9 ∷ 9 ∷ []
    else if o.unicast_reply
    then slice 6 12 request
    else 0xff ∷ 0xff ∷ 0xff ∷ 0xff ∷ 0xff ∷ 0xff ∷ []

abbrev pub destination_ip : Bytes → DhcpOptions → Bytes
destination_ip request o =
    if o.unicast_reply then slice 26 30 request else 255 ∷ 255 ∷ 255 ∷ 255 ∷ []

-- The 240 bytes of BOOTP: the transaction, the offered address and the client's hardware address
-- stand at bytes 4, 16 and 28. The request holds 76 bytes at least, and an address 4.
unfoldable pub bootp : Bytes → ℕ → DhcpOptions → Bytes
bootp request type o =
    2
    ∷ 1
    ∷ 6
    ∷ 0
    ∷ (slice 46 50 request
        ++ (replicate 8 0
            ++ ((if not (type == 6) && not o.zero_yiaddr then offered_ip o else replicate 4 0)
                ++ (replicate 8 0
                    ++ (slice 70 76 request
                        ++ (replicate 202 0 ++ (0x63 ∷ 0x82 ∷ 0x53 ∷ 0x63 ∷ [])))))))

-- An option with its length, and a byte too many where a fault asks for it.
abbrev pub option_with : ℕ → Bytes → Bool → Bytes
option_with code bytes longer =
    let value = if longer then bytes ++ (0 ∷ []) else bytes in code ∷ length value ∷ value

abbrev pub unless : Bool → Bytes → Bytes
unless omitted bytes = if omitted then [] else bytes

-- The options of an answer other than a NAK.
unfoldable pub lease_options : DhcpOptions → Bytes
lease_options o =
    unless o.omit_mask
      (option_with 1 (or_default o.mask (255 ∷ 255 ∷ 255 ∷ 0 ∷ [])) o.bad_mask_length)
    ++ (unless o.omit_router (option_with 3 (or_default o.router (server_ip o)) o.bad_router_length)
        ++ (unless o.omit_dns (
              option_with 6 (or_default o.dns (1 ∷ 1 ∷ 1 ∷ 1 ∷ 8 ∷ 8 ∷ 8 ∷ 8 ∷ []))
                o.bad_dns_length)
            ++ unless o.missing_lease
                (option_with 51 (bytes32 (or_nonzero o.lease 3600)) o.bad_lease_length)))

unfoldable pub dhcp_options : ℕ → DhcpOptions → Bytes
unfolding lease_options
dhcp_options type o =
    53
    ∷ 1
    ∷ type
    ∷ (unless o.missing_server (54 ∷ 4 ∷ server_ip o)
        ++ ((if type == 6 then [] else lease_options o) ++ (255 ∷ [])))

unfoldable pub dhcp_body : Bytes → ℕ → DhcpOptions → Bytes
unfolding bootp dhcp_options
dhcp_body request type o = bootp request type o ++ dhcp_options type o

-- The reply before the faults, with 0 for the UDP checksum.
unfoldable pub sound_dhcp_reply : Bytes → ℕ → DhcpOptions → Bytes
unfolding dhcp_body
sound_dhcp_reply request type o =
    let body = dhcp_body request type o in
    let udp_length = 8 + length body in
    destination_mac request o
    ++ (server_mac o
        ++ (8
            ∷ 0
            ∷ (ip_header (28 + length body) 0x12 0x34 64 17 (server_ip o) (destination_ip request o)
                ++ (0 ∷ 67 ∷ 0 ∷ 68 ∷ high udp_length ∷ low udp_length ∷ 0 ∷ 0 ∷ body))))

-- The faults that come before the UDP checksum.
unfoldable pub damage_dhcp : DhcpOptions → Bytes → Bytes
damage_dhcp o frame =
    let r1 = if o.bad_xid then flip 46 frame else frame in
    let r2 = if o.bad_chaddr then flip 70 r1 else r1 in
    let r3 = if o.bad_cookie then flip 278 r2 else r2 in
    if o.bad_options then set r3 (length r3 - 1) 54 else r3

-- The UDP checksum put in; a sum of 0 stays 0.
unfoldable pub with_udp_checksum : Bytes → ℕ → Bytes → Bytes
with_udp_checksum addresses udp_length frame =
    put_word 40 (checksum (pseudo addresses udp_length (drop 34 frame))) frame

unfoldable pub build_dhcp_reply : Bytes → ℕ → DhcpOptions → Bytes
unfolding sound_dhcp_reply damage_dhcp with_udp_checksum
build_dhcp_reply request type o =
    let reply =
      with_udp_checksum (server_ip o ++ destination_ip request o)
        (8 + length (dhcp_body request type o)) (damage_dhcp o (sound_dhcp_reply request type o)) in
    if o.bad_udp_checksum then flip 40 reply else reply
