-- ===== src/Peer/Respond/ArpOnly.antt =====
-- An ARP request is a matter of the ARP handler alone.
use sprinter_3c509b.Base.{
  ℕ, ◌+◌, Bool, true, false, not, ◌&&◌, ◌||◌, Option, none, some, List, [], ◌∷◌, ◌++◌, leb, ltb,
  ◌==◌, if◌then◌else◌, if_false, if_true, if_both, length, slice, Bytes, byte_at, ◌≡◌, refl, ap,
  ◌∙◌, arith,
}
use sprinter_3c509b.Card.{Reply}
use sprinter_3c509b.Frame.Arp.{is_arp_request, build_arp_reply, build_arp_request}
use sprinter_3c509b.Frame.Dhcp.{dhcp_message_type}
use sprinter_3c509b.Frame.Icmp.{icmp_echo_request}
use sprinter_3c509b.Frame.Tcp.{tcp_segment}
use sprinter_3c509b.Frame.Udp.{udp_datagram}
use sprinter_3c509b.Peer.Respond.{on_frame, on_segment, on_datagram, respond}
use sprinter_3c509b.Peer.Respond.Flow.{Turn, answer, stop, with_part, with_read, at_once_if}
use sprinter_3c509b.Peer.Respond.Frames.{respond_dhcp, respond_arp, respond_icmp}
use sprinter_3c509b.Peer.Scenario.{DhcpPart, ArpPart, IcmpPart, Parts, Network}
use sprinter_3c509b.Peer.Tcp.{at_once}

not_ip : (frame : Bytes) → is_arp_request frame ≡ true → (byte_at frame 13 == 0) ≡ false
unfolding is_arp_request
not_ip frame h = ground arith

third : (a b : Bool) {c : Bool} → c ≡ false → (a || not b || not c) ≡ true
third a b h = ground arith

no_type : (n : ℕ) → n ≡ 0 → ((n == 7) ≡ false) × ((n == 1) ≡ false) × ((n == 3) ≡ false)
no_type n h = (ground arith, ground arith, ground arith)

abbrev begin : Network → Turn
begin network = record { network = network; out = []; stopped = false }

abbrev outcome : Turn → Network × List Reply
outcome t = (t.network, t.out)

nothing_read {ℓ} :
    {A : Type ℓ} (o : Option A) (f : A → Turn → Turn) (t : Turn) → o ≡ none → with_read o f t ≡ t
nothing_read o f t e = ap (λ o. with_read o f t) e

-- What either end of a handler comes to.
parted :
    (b : Bool) (t : Turn) (replies : List Reply)
    → t.out ≡ []
    → let u = if b then stop t else answer replies t in
      outcome u ≡ (t.network, if b then [] else replies)
parted true t replies e = ap (λ l. (t.network, l)) e
parted false t replies e = ap (λ l. (t.network, l ++ replies)) e

module _ (frame : Bytes) (arp : is_arp_request frame ≡ true) where
  dhcp_message_type-arp : dhcp_message_type frame ≡ 0
  unfolding dhcp_message_type
  dhcp_message_type-arp =
      if_true _ _ _ (third (ltb (length frame) 286) (byte_at frame 12 == 8) (not_ip frame arp))

  icmp_echo_request-arp : icmp_echo_request frame ≡ false
  unfolding icmp_echo_request
  icmp_echo_request-arp =
      if_true _ _ _ (third (ltb (length frame) 42) (byte_at frame 12 == 8) (not_ip frame arp))

  tcp_segment-arp : tcp_segment frame ≡ none
  unfolding tcp_segment
  tcp_segment-arp =
      if_true _ _ _ (third (ltb (length frame) 54) (byte_at frame 12 == 8) (not_ip frame arp))

  udp_datagram-arp : udp_datagram frame ≡ none
  unfolding udp_datagram
  udp_datagram-arp =
      if_true _ _ _ (third (ltb (length frame) 42) (byte_at frame 12 == 8) (not_ip frame arp))

  dhcp_idle : (o : Option DhcpPart) (t : Turn) → with_part o (respond_dhcp frame) t ≡ t
  unfolding respond_dhcp
  dhcp_idle none t = refl
  dhcp_idle (some part) t =
      if_both (λ u. u ≡ t) t.stopped refl
        (if_false _ _ _ (no_type (dhcp_message_type frame) dhcp_message_type-arp).0
          ∙ (if_false _ _ _ (no_type (dhcp_message_type frame) dhcp_message_type-arp).1
              ∙ if_false _ _ _ (no_type (dhcp_message_type frame) dhcp_message_type-arp).2))

  icmp_idle : (o : Option IcmpPart) (t : Turn) → with_part o (respond_icmp frame) t ≡ t
  unfolding respond_icmp
  icmp_idle none t = refl
  icmp_idle (some part) t =
      if_both (λ u. u ≡ t) t.stopped refl (if_true _ _ _ (ap not icmp_echo_request-arp))

  abbrev arp_answers : ArpPart → ℕ → List Reply
  arp_answers part count =
      at_once_if (part.request_before_reply && count == 1)
        (build_arp_request (slice 22 28 frame) (slice 28 32 frame) part.options)
      ++ (at_once (build_arp_reply frame part.options) ∷ [])

  -- The handler, from the start of a turn.
  arp_turn :
      (o : Option ArpPart) (part : ArpPart) (network : Network)
      → o ≡ some part
      → let t = with_part o (respond_arp frame) (begin network) in
        let count = network.arp_request_count + 1 in
        outcome t ≡ (
          record network { arp_request_count = count },
          if leb count part.drop || part.is_silent then [] else arp_answers part count,
        )
  unfolding respond_arp
  arp_turn o part network e =
      let count = network.arp_request_count + 1 in
      let counted : Turn = record (begin network) {
        network = record network { arp_request_count = count };
      } in
      ap (λ o. outcome (with_part o (respond_arp frame) (begin network))) e
      ∙ (ap outcome (if_false _ _ _ (ap not arp))
          ∙ parted (leb count part.drop || part.is_silent) counted (arp_answers part count) refl)

-- An ARP request counts as one, and gets the answers of the ARP handler and no others, or none
-- where the scenario drops it: no other handler takes the frame for its own. The scenario has an
-- ARP part.
pub respond-arp :
    (parts : Parts) (part : ArpPart) (frame : Bytes) (network : Network)
    → parts.arp ≡ some part
    → is_arp_request frame ≡ true
    → let count = network.arp_request_count + 1 in
      respond parts frame network ≡ (
        record network { arp_request_count = count },
        if leb count part.drop || part.is_silent
            then []
            else at_once_if
                (part.request_before_reply && count == 1)
                (build_arp_request (slice 22 28 frame) (slice 28 32 frame) part.options)
              ++ (at_once (build_arp_reply frame part.options) ∷ []),
      )
unfolding respond
respond-arp parts part frame network has arp =
    let start = begin network in
    let framed = on_frame parts frame start in
    let segment =
      nothing_read (tcp_segment frame) (on_segment parts) framed (tcp_segment-arp frame arp) in
    let datagram =
      nothing_read (udp_datagram frame) (on_datagram parts frame)
        (with_read (tcp_segment frame) (on_segment parts) framed) (udp_datagram-arp frame arp) in
    let asked = with_part parts.arp (respond_arp frame) in
    let echo =
      icmp_idle frame arp parts.icmp (asked (with_part parts.dhcp (respond_dhcp frame) start)) in
    let whole = datagram ∙ (segment ∙ (echo ∙ ap asked (dhcp_idle frame arp parts.dhcp start))) in
    ap outcome whole ∙ arp_turn frame arp parts.arp part network has
