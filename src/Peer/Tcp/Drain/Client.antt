-- ===== src/Peer/Tcp/Drain/Client.antt =====
-- The client that a connection serves: the segments it takes in, and the bytes it collects.
use sprinter_3c509b.Base.{
  ℕ, ◌%◌, ◌≤◌, ◌<◌, ◌≡◌, ◌≢◌, refl, ap, ◌∙◌, Bool, true, false, Option, none, some, List, [], ◌∷◌,
  ◌++◌, ◌==◌, if◌then◌else◌, if_true, length, Bytes, AllBytes, or_default, or_nonzero, add32, u32,
  arith, eq→==,
}
use sprinter_3c509b.Card.{Reply}
use sprinter_3c509b.Frame.Tcp.{Segment, tcp_segment, is_syn}
use sprinter_3c509b.Frame.Tcp.Sum.{mss_part}
use sprinter_3c509b.Frame.Tcp.Reply.{build_tcp_reply-read}
use sprinter_3c509b.Peer.Tcp.{Connection, Options, reply_options}
use sprinter_3c509b.Peer.Tcp.Drain.{data_frame}

-- The client takes a segment in where it is the next one, and moves on by its payload.
abbrev pub take_in : Option Segment → ℕ → ℕ × Bytes
take_in none next = (next, [])
take_in (some s) next =
    if s.sequence == next then (add32 next (length s.payload), s.payload) else (next, [])

-- The bytes that a client, who waits for the number `next`, collects from the frames. A frame that
-- is lost never reaches the client.
abbrev pub collect : List Reply → ℕ → Bytes
collect [] next = []
collect (r ∷ rs) next =
    let (later, got) = if r.lost then (next, []) else take_in (tcp_segment r.frame) next in
    got ++ collect rs later

-- The addresses and ports fit their fields.
pub record Fits (o : Options) (template : Segment) : Type 0 where
  pub ether_length : length template.ether_source ≡ 6
  pub mac_length : length (or_default o.mac (2 ∷ 0 ∷ 0 ∷ 0 ∷ 0 ∷ 44 ∷ [])) ≡ 6
  pub source_length : length (or_default o.ip template.destination) ≡ 4
  pub source_bytes : AllBytes (or_default o.ip template.destination)
  pub destination_length : length template.source ≡ 4
  pub destination_bytes : AllBytes template.source
  pub source_port : (template.destination_port ≢ 0) × (template.destination_port < 65536)
  pub destination_port : (template.source_port ≢ 0) × (template.source_port < 65536)
  pub mss : or_nonzero o.mss 536 < 65536

module _ (o : Options) (template : Segment) where
  -- A segment with no SYN, as the client reads it.
  flagged_read :
      (c : Connection) (flags : ℕ) (payload : Bytes)
      → is_syn flags ≡ false
      → flags < 256
      → Fits o template
      → c.server_next < u32
      → c.advertised_window < 65536
      → AllBytes payload
      → length payload ≤ 1460
      → take_in
          (tcp_segment (data_frame o template c c.server_next flags c.advertised_window payload))
          c.server_next
        ≡ (add32 c.server_next (length payload), payload)
  flagged_read c flags payload no_syn byte f next window bytes small =
      let t = reply_options o c.server_next c.client_next flags c.advertised_window payload in
      let no_option : length (mss_part t) ≡ 0 = rw no_syn refl in
      let same : c.server_next % u32 == c.server_next ≡ true =
        eq→== (c.server_next % u32) c.server_next (omega arith) in
      ap (λ r. take_in r c.server_next)
        (build_tcp_reply-read template t (record {
          ether_length = f.ether_length;
          mac_length = f.mac_length;
          parts = record {
            source_length = f.source_length;
            destination_length = f.destination_length;
            source_bytes = f.source_bytes;
            destination_bytes = f.destination_bytes;
            payload_bytes = bytes;
            source_port = f.source_port.1;
            destination_port = f.destination_port.1;
            flags = byte;
            window = window;
            payload_length = omega arith;
          };
          ports = (f.source_port.0, f.destination_port.0);
          mss = f.mss;
          ttl = omega arith;
        }))
      ∙ if_true (c.server_next % u32 == c.server_next)
          (add32 c.server_next (length payload), payload) (c.server_next, []) same

  -- A data segment, with or without a FIN.
  pub data_frame-read :
      (c : Connection) (fin : Bool) (payload : Bytes)
      → Fits o template
      → c.server_next < u32
      → c.advertised_window < 65536
      → AllBytes payload
      → length payload ≤ 1460
      → take_in
          (tcp_segment (
            data_frame o template c c.server_next
              (if fin then 0x19 else 0x18)
              c.advertised_window
              payload))
          c.server_next
        ≡ (add32 c.server_next (length payload), payload)
  data_frame-read c true payload f = flagged_read c 0x19 payload refl (omega arith) f
  data_frame-read c false payload f = flagged_read c 0x18 payload refl (omega arith) f
