-- ===== src/Peer/Respond/Wire.antt =====
-- The card and the peers together: an ARP request on its way from the program to the responder.
use sprinter_3c509b.Base.{
  ◌+◌, ◌<◌, ◌≡◌, ◌∙◌, ap, true, false, refl, some, ◌||◌, ◌&&◌, ◌==◌, leb, slice, if_false, [], ◌∷◌,
  ◌++◌, length, Bytes, AllBytes, ok,
}
use sprinter_3c509b.Card.{Card, accepts}
use sprinter_3c509b.Card.Fifo.Accept.{entry, tx_bytes}
use sprinter_3c509b.Card.Fifo.{fresh}
use sprinter_3c509b.Card.Fifo.Transmit.{transmit_frame-answers}
use sprinter_3c509b.Frame.Arp.{is_arp_request, build_arp_reply, build_arp_request}
use sprinter_3c509b.Peer.Respond.{wire, respond}
use sprinter_3c509b.Peer.Respond.Flow.{at_once_if}
use sprinter_3c509b.Peer.Tcp.{at_once}
use sprinter_3c509b.Peer.Respond.ArpOnly.{respond-arp}
use sprinter_3c509b.Peer.Scenario.{ArpPart, Parts, Network}

-- An ARP request that the program writes to the FIFO of an idle, enabled transmitter in window 1
-- is transmitted, and the answer of `buildArpReply` is the next frame that the card receives; of all
-- that the peers remember only their count of ARP requests changes, by one. The scenario has an ARP
-- part that neither drops this request nor sends one of its own in front of the answer, the card
-- takes in the answer and loops nothing back, and the frame has fewer than 2048 bytes.
pub transmit_frame-arp :
    (parts : Parts) (part : ArpPart) (c : Card Network) (frame : Bytes)
    → parts.arp ≡ some part
    → is_arp_request frame ≡ true
    → c.window ≡ 1
    → c.tx_enabled ≡ true
    → c.tx_fifo ≡ []
    → c.tx_expected ≡ 0
    → AllBytes frame
    → length frame < 0x800
    → (leb (c.peer.arp_request_count + 1) part.drop || part.is_silent) ≡ false
    → part.request_before_reply ≡ false
    → accepts c (build_arp_reply frame part.options) ≡ true
    → c.net_diag ≡ 0
    → (d : Card Network) × (tx_bytes (wire parts) c (entry frame) ≡ ok d)
      × (d.transmitted ≡ c.transmitted ++ (frame ∷ []))
      × (d.peer ≡ record c.peer { arp_request_count = c.peer.arp_request_count + 1 })
      × (d.rx_queue ≡ c.rx_queue ++ (fresh (build_arp_reply frame part.options) ∷ []))
unfolding wire
transmit_frame-arp parts part c frame has arp window enabled idle none_due bytes small heard quiet
      accepted plain =
    let turn = respond-arp parts part frame c.peer has arp in
    let only : (respond parts frame c.peer).1 ≡ at_once (build_arp_reply frame part.options) ∷ [] =
      ap (λ r. r.1) turn
      ∙ (if_false (leb (c.peer.arp_request_count + 1) part.drop || part.is_silent) _ _ heard
          ∙ ap
              (λ b.
                at_once_if (b && c.peer.arp_request_count + 1 == 1)
                  (build_arp_request (slice 22 28 frame) (slice 28 32 frame) part.options)
                ++ (at_once (build_arp_reply frame part.options) ∷ []))
              quiet) in
    let (d, written, kept, peer, received) =
      transmit_frame-answers (wire parts) c frame window enabled idle none_due bytes small
        (at_once (build_arp_reply frame part.options)) only accepted refl refl plain in
    (d, written, kept, peer ∙ ap (λ r. r.0) turn, received)
