-- ===== src/Frame/Arp.antt =====
-- `buildArpReply` and `buildArpRequest`, and the test by which `respond` takes a frame for a
-- request.
pub mod Answer
use sprinter_3c509b.Base.{
  ℕ, zero, suc, ◌+◌, Bool, true, false, not, ◌||◌, ◌&&◌, Option, none, some, [], ◌∷◌, ◌++◌, leb,
  ◌==◌, if◌then◌else◌, length, set, slice, splice, replicate, Bytes, byte_at, flip, or_default,
}

-- The fields of `options` that the two builders read.
pub record ArpOptions : Type 0 where
  pub mac : Option Bytes
  pub ip : Option Bytes
  pub bad_ether_source : Bool
  pub foreign_destination : Bool
  pub bad_opcode_high : Bool
  pub requester_mac : Option Bytes
  pub requester_ip : Option Bytes

abbrev pub foreign_mac : Bytes
foreign_mac = 2 ∷ 9 ∷ 9 ∷ 9 ∷ 9 ∷ 9 ∷ []

-- The reply before the faults.
abbrev pub sound_arp_reply : Bytes → ArpOptions → Bytes
sound_arp_reply request options =
    let sender_mac = or_default options.mac (2 ∷ 0 ∷ 0 ∷ 0 ∷ 0 ∷ 1 ∷ []) in
    let sender_ip = or_default options.ip (slice 38 42 request) in
    let target_mac = slice 22 28 request in
    let target_ip = slice 28 32 request in
    target_mac
    ++ (sender_mac
        ++ (8
            ∷ 6
            ∷ 0
            ∷ 1
            ∷ 8
            ∷ 0
            ∷ 6
            ∷ 4
            ∷ 0
            ∷ 2
            ∷ (sender_mac ++ (sender_ip ++ (target_mac ++ (target_ip ++ replicate 18 0))))))

unfoldable pub build_arp_reply : Bytes → ArpOptions → Bytes
build_arp_reply request options =
    let reply = sound_arp_reply request options in
    let r1 = if options.bad_ether_source then flip 6 reply else reply in
    let r2 =
      if options.foreign_destination
      then splice 32 6 foreign_mac (splice 0 6 foreign_mac r1)
      else r1 in
    if options.bad_opcode_high then set r2 20 1 else r2

unfoldable pub build_arp_request : Bytes → Bytes → ArpOptions → Bytes
build_arp_request target_mac target_ip options =
    let sender_mac = or_default options.requester_mac (2 ∷ 0 ∷ 0 ∷ 0 ∷ 0 ∷ 2 ∷ []) in
    let sender_ip = or_default options.requester_ip (192 ∷ 168 ∷ 7 ∷ 2 ∷ []) in
    replicate 6 0xff
    ++ (sender_mac
        ++ (8
            ∷ 6
            ∷ 0
            ∷ 1
            ∷ 8
            ∷ 0
            ∷ 6
            ∷ 4
            ∷ 0
            ∷ 1
            ∷ (sender_mac ++ (sender_ip ++ (replicate 6 0 ++ (target_ip ++ replicate 18 0))))))

-- The test of `respond` for an ARP request.
unfoldable pub is_arp_request : Bytes → Bool
is_arp_request frame =
    leb 42 (length frame)
    && byte_at frame 12 == 8
    && byte_at frame 13 == 6
    && byte_at frame 20 == 0
    && byte_at frame 21 == 1
