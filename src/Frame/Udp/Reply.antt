-- ===== src/Frame/Udp/Reply.antt =====
-- A reply of `buildUdpReply` with no fault asked for, as `udpDatagram` reads it.
use sprinter_3c509b.Base.{
  pos, ℕ, ◌+◌, ◌-◌, ◌<◌, ◌≡◌, ◌∙◌, ap, false, some, ◌∷◌, ◌++◌, arith, length, append_assoc, Bytes,
  replicate, or_nonzero, pad_to,
}
use sprinter_3c509b.Frame.Ip.{ip_header}
use sprinter_3c509b.Frame.Udp.Sum.{IsUdpReply}
use sprinter_3c509b.Frame.Udp.RoundTrip.{udp_frame, udp_frame-read}
use sprinter_3c509b.Frame.Udp.{
  Datagram, UdpOptions, udp_datagram, udp_part, damage_udp, build_udp_reply, sound_udp_reply,
  reply_payload, reply_mac, reply_ip, reply_source_port, reply_destination_port,
}

-- No fault is asked for, `corruptPayload` aside, which damages the payload before the checksum.
pub record IsSound (o : UdpOptions) : Type 0 where
  pub source : o.foreign_source ≡ false
  pub destination : o.foreign_destination ≡ false
  pub ip_checksum : o.bad_ip_checksum ≡ false
  pub udp_checksum : o.bad_udp_checksum ≡ false
  pub delta : o.udp_length_delta ≡ pos 0

-- The addresses, ports, payload and lifetime of the reply fit their fields.
pub record Fits (r : Datagram) (o : UdpOptions) : Type 0 where
  pub ether_length : length r.ether_source ≡ 6
  pub mac_length : length (reply_mac r o) ≡ 6
  pub parts :
      IsUdpReply
        (reply_ip r o)
        r.source
        (reply_payload r o)
        (reply_source_port r o)
        (reply_destination_port r o)
  pub ttl : or_nonzero o.ttl 61 < 256

damage_udp_sound :
    (o : UdpOptions) (n : ℕ) (reply : Bytes) → IsSound o → damage_udp o n reply ≡ reply
unfolding damage_udp
damage_udp_sound o n reply v = ground arith

pub frame_assoc :
    (e m h udp pad : Bytes) → (e ++ (m ++ (8 ∷ 0 ∷ (h ++ udp)))) ++ pad ≡ udp_frame e m h udp pad
frame_assoc e m h udp pad = simp append_assoc

-- A reply with no fault is accepted and read back: it comes from the chosen MAC, address and
-- port, goes to the requester's address and port, and carries the chosen payload, flipped in its
-- first byte where `corruptPayload` asks for it. The parts fit their fields, and the payload has
-- at most 1472 bytes.
pub build_udp_reply-read :
    (r : Datagram) (o : UdpOptions)
    → IsSound o
    → Fits r o
    → udp_datagram (build_udp_reply r o)
      ≡ some (record {
        ether_source = reply_mac r o;
        source = reply_ip r o;
        destination = r.source;
        source_port = reply_source_port r o;
        destination_port = reply_destination_port r o;
        payload = reply_payload r o;
        ip =
            ip_header
              (28 + length (reply_payload r o))
              0x63
              0x21
              (or_nonzero o.ttl 61)
              17
              (reply_ip r o)
              r.source
            ++ udp_part
                (reply_ip r o)
                r.source
                (reply_source_port r o)
                (reply_destination_port r o)
                (reply_payload r o);
      })
unfolding build_udp_reply
build_udp_reply-read r o sound v =
    ap (λ t. udp_datagram (pad_to 60 t))
      (damage_udp_sound o (8 + length (reply_payload r o)) (sound_udp_reply r o) sound)
    ∙ ap udp_datagram (frame_assoc r.ether_source (reply_mac r o) h udp pad)
    ∙ udp_frame-read r.ether_source (reply_mac r o) (reply_ip r o) r.source (reply_payload r o) pad
        (reply_source_port r o) (reply_destination_port r o) 0x63 0x21 (or_nonzero o.ttl 61)
        v.ether_length v.mac_length v.parts (omega arith) v.ttl
  where
    h : Bytes
    h =
        ip_header (28 + length (reply_payload r o)) 0x63 0x21 (or_nonzero o.ttl 61) 17
          (reply_ip r o) r.source

    udp : Bytes
    udp =
        udp_part (reply_ip r o) r.source (reply_source_port r o) (reply_destination_port r o)
          (reply_payload r o)

    pad : Bytes
    pad = replicate (60 - length (sound_udp_reply r o)) 0
