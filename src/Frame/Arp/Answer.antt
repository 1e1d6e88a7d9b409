-- ===== src/Frame/Arp/Answer.antt =====
-- A reply of `buildArpReply` to a request of `buildArpRequest`.
use sprinter_3c509b.Base.{
  ℕ, ◌≡◌, refl, true, false, [], ◌∷◌, length, slice, Bytes, with_cons4, with_cons6, some, none,
}
use sprinter_3c509b.Frame.Arp.{ArpOptions, build_arp_reply, build_arp_request, is_arp_request}

-- The frame is an ARP reply of 60 bytes from `mac` and `ip` to `target_mac` and `target_ip`.
pub record IsReply (frame mac ip target_mac target_ip : Bytes) : Type 0 where
  pub size : length frame ≡ 60
  pub ether_destination : slice 0 6 frame ≡ target_mac
  pub ether_source : slice 6 12 frame ≡ mac
  pub opcode : slice 12 22 frame ≡ 8 ∷ 6 ∷ 0 ∷ 1 ∷ 8 ∷ 0 ∷ 6 ∷ 4 ∷ 0 ∷ 2 ∷ []
  pub sender_mac : slice 22 28 frame ≡ mac
  pub sender_ip : slice 28 32 frame ≡ ip
  pub receiver_mac : slice 32 38 frame ≡ target_mac
  pub receiver_ip : slice 38 42 frame ≡ target_ip

-- Options of a requester with these addresses, and of a responder with this MAC that asks for no
-- fault and has no address of its own.
abbrev pub asks : ArpOptions → Bytes → Bytes → ArpOptions
asks o rmac rip = record o { requester_mac = some rmac; requester_ip = some rip }

abbrev pub answers : ArpOptions → Bytes → ArpOptions
answers o mac = record o {
  mac = some mac;
  ip = none;
  bad_ether_source = false;
  foreign_destination = false;
  bad_opcode_high = false;
}

module _ (q o : ArpOptions) (tmac : Bytes) where
  abbrev Answers : Bytes → Bytes → Bytes → Bytes → Type 0
  Answers rmac rip tip mac =
      let request = build_arp_request tmac tip (asks q rmac rip) in
      (is_arp_request request ≡ true)
      × IsReply (build_arp_reply request (answers o mac)) mac tip rmac rip

  Answers-parts :
      (a0 a1 a2 a3 a4 a5 b0 b1 b2 b3 c0 c1 c2 c3 d0 d1 d2 d3 d4 d5 : ℕ)
      → Answers
          (a0 ∷ a1 ∷ a2 ∷ a3 ∷ a4 ∷ a5 ∷ [])
          (b0 ∷ b1 ∷ b2 ∷ b3 ∷ [])
          (c0 ∷ c1 ∷ c2 ∷ c3 ∷ [])
          (d0 ∷ d1 ∷ d2 ∷ d3 ∷ d4 ∷ d5 ∷ [])
  unfolding is_arp_request build_arp_request build_arp_reply
  Answers-parts a0 a1 a2 a3 a4 a5 b0 b1 b2 b3 c0 c1 c2 c3 d0 d1 d2 d3 d4 d5 = (
    refl,
    record {
      size = refl;
      ether_destination = refl;
      ether_source = refl;
      opcode = refl;
      sender_mac = refl;
      sender_ip = refl;
      receiver_mac = refl;
      receiver_ip = refl;
    },
  )

  -- A request of `buildArpRequest` passes the test of `respond`, and the answer to it, with no fault
  -- asked for, is an ARP reply of 60 bytes from the chosen MAC and the requested address back to
  -- the requester, where the responder has no address of its own. Each address has its length.
  pub build_arp_reply-answers :
      (rmac rip tip mac : Bytes)
      → length rmac ≡ 6
      → length rip ≡ 4
      → length tip ≡ 4
      → length mac ≡ 6
      → let request = build_arp_request tmac tip (asks q rmac rip) in
        (is_arp_request request ≡ true)
        × IsReply (build_arp_reply request (answers o mac)) mac tip rmac rip
  build_arp_reply-answers rmac rip tip mac l1 l2 l3 l4 =
      with_cons6 (λ rmac. Answers rmac rip tip mac)
        (λ a0 a1 a2 a3 a4 a5.
          with_cons4 (λ rip. Answers (a0 ∷ a1 ∷ a2 ∷ a3 ∷ a4 ∷ a5 ∷ []) rip tip mac)
            (λ b0 b1 b2 b3.
              with_cons4
                (λ tip. Answers (a0 ∷ a1 ∷ a2 ∷ a3 ∷ a4 ∷ a5 ∷ []) (b0 ∷ b1 ∷ b2 ∷ b3 ∷ []) tip mac)
                (λ c0 c1 c2 c3.
                  with_cons6
                    (λ mac.
                      Answers (a0 ∷ a1 ∷ a2 ∷ a3 ∷ a4 ∷ a5 ∷ []) (b0 ∷ b1 ∷ b2 ∷ b3 ∷ [])
                        (c0 ∷ c1 ∷ c2 ∷ c3 ∷ []) mac)
                    (Answers-parts a0 a1 a2 a3 a4 a5 b0 b1 b2 b3 c0 c1 c2 c3) mac l4)
                tip l3)
            rip l2)
        rmac l1
