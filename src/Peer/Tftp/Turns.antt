-- ===== src/Peer/Tftp/Turns.antt =====
-- The server's turns in a download without faults, and what the client reads of them.
use sprinter_3c509b.Base.{
  ℕ, suc, ◌+◌, ◌*◌, Bool, true, false, not, ◌&&◌, ◌||◌, Option, none, some, List, [], ◌∷◌, leb,
  ◌==◌, if◌then◌else◌, if_false, not-eq_false, if_true, length, Bytes, AllBytes, word_at, high, low,
  ◌≡◌, refl, ap, ◌∙◌, ◌≤◌, ◌<◌, arith,
}
use sprinter_3c509b.Frame.Udp.{Datagram}
use sprinter_3c509b.Frame.Udp.Reply.{build_udp_reply-read}
use sprinter_3c509b.Peer.Tcp.Drain.{is_nil}
use sprinter_3c509b.Peer.Text.{named}
use sprinter_3c509b.Peer.Tftp.{
  Download, get, Server, server_tid, packet_options, start, start_named, start_get, error_packet,
  not_found, accepted_oack, block_of, data_packet, note_final, queue, emit, on_ack, is_request_port,
  in_session, is_final, respond_tftp,
}
use sprinter_3c509b.Peer.Tftp.Client.{calm, block_data, ack_of, receive, FitsWire, Asks, opened}
use sprinter_3c509b.Peer.Tftp.Blocks.{block_of-AllBytes, length-block_of}

abbrev final_at : ℕ → Option ℕ → Bool
final_at ack o = elim o [ none ↦ false | some block ↦ block == ack ]

pub is_own : (tid : ℕ) (b : Bool) → not (b || tid == tid) ≡ false
is_own tid b = ground arith

pub counts : (n : ℕ) → (leb (n + 1) 0 || false) ≡ false
counts n = ground arith

four_more : (n size : ℕ) → n ≤ size → size ≤ 1468 → suc (suc (suc (suc n))) ≤ 1472
four_more n size h k = omega arith

carries : (block : ℕ) → (0 * 256 + 3 == 3 && high block * 256 + low block == block) ≡ true
carries block = ground arith

pub any_port : (b c : Bool) → b ≡ true → not (b || c) ≡ false
any_port b c h = ground arith

reads : (n : ℕ) (b : Bool) → n ≡ 1 → b ≡ true → ((n == 1 || n == 2) && b) ≡ true
reads n b h k = ground arith

module _ (tid : Option ℕ) (files : List (Bytes × Bytes)) (client : Datagram) where
  -- The server's turn: the next block.
  pub on_ack_next :
      (ack : ℕ) (d : Download) (s : Server)
      → ack < 65535
      → d.final_block ≡ none
      → on_ack (calm tid files) (ack_of tid files client ack) d ack s
        ≡ emit
            (calm tid files)
            (ack_of tid files client ack)
            (data_packet d (ack + 1))
            (record s { session = some (get (note_final d (ack + 1))) })
  unfolding on_ack
  on_ack_next ack d s small open_ended =
      if_false (is_final d ack) _ _ (ap (final_at ack) open_ended)
      ∙ ap
          (λ next.
            emit (calm tid files) (ack_of tid files client ack) (data_packet d next)
              (record s { session = some (get (note_final d next)) }))
          (omega arith)

  pub respond_ack :
      (ack : ℕ) (d : Download) (s : Server)
      → ack < 65535
      → d.final_block ≡ none
      → s.session ≡ some (get d)
      → let r = respond_tftp (calm tid files) (ack_of tid files client ack) s in
        (r.0.session ≡ some (get (note_final d (ack + 1))))
        × (r.1
            ≡ queue
                (calm tid files)
                (ack_of tid files client ack)
                (data_packet d (ack + 1))
                (server_tid (calm tid files))
              ∷ [])
  unfolding respond_tftp
  respond_ack ack d s small open_ended e =
      let s1 : Server = record s { packet_count = s.packet_count + 1 } in
      let turn : respond_tftp (calm tid files) (ack_of tid files client ack) s
          ≡ in_session (calm tid files) (ack_of tid files client ack) 4 s1 s.session =
        if_false _ _ _ (
          is_own (server_tid (calm tid files))
            (is_request_port (calm tid files) (server_tid (calm tid files))))
        ∙ (if_false _ _ _ (counts s.packet_count)
            ∙ if_false _ _ _
                (not-eq_false (server_tid (calm tid files)) (server_tid (calm tid files)) refl)) in
      let whole =
        turn
        ∙ (ap (in_session (calm tid files) (ack_of tid files client ack) 4 s1) e
            ∙ (ap (λ a. on_ack (calm tid files) (ack_of tid files client ack) d a s1) (omega arith)
                ∙ on_ack_next ack d s1 small open_ended)) in
      (ap (λ r. r.0.session) whole, ap (λ r. r.1) whole ∙ if_false _ _ _ (counts s.response_count))

  -- A block that fits a datagram reaches the client.
  pub receive_block :
      FitsWire tid files client
      → (block : ℕ) (d : Download) → 0 < block
      → block < 65536
      → d.block_size ≤ 1468
      → AllBytes d.file
      → (ack : ℕ)
      → receive tid files client block (
          queue
            (calm tid files)
            (ack_of tid files client ack)
            (data_packet d block)
            (server_tid (calm tid files))
          ∷ [])
        ≡ some (block_of d block)
  unfolding queue
  receive_block v block d pos small fits bytes ack =
      ap (block_data block) (
        build_udp_reply-read (ack_of tid files client ack)
          (packet_options (calm tid files) (ack_of tid files client ack)
            (server_tid (calm tid files)) (data_packet d block))
          (record {
            source = refl;
            destination = refl;
            ip_checksum = refl;
            udp_checksum = refl;
            delta = refl;
          })
          (record {
            ether_length = v.ether_length;
            mac_length = refl;
            parts = record {
              source_length = v.server_length;
              destination_length = v.client_length;
              source_bytes = v.server_bytes;
              destination_bytes = v.client_bytes;
              payload_bytes = (
                omega arith,
                (omega arith, (omega arith, (omega arith, block_of-AllBytes d block bytes))),
              );
              source_port = v.server_port;
              destination_port = v.client_port;
              payload_length =
                  four_more (length (block_of d block)) d.block_size (length-block_of d block) fits;
            };
            ttl = omega arith;
          }))
      ∙ if_true _ _ _ (carries block)

  -- The start of a session, up to the acknowledgement of its (calm tid files).
  pub start-opened :
      (name file : Bytes) (asked : Datagram) (s : Server)
      → Asks tid files client 1 name asked
      → named name files ≡ some file
      → start (calm tid files) asked 1 s
        ≡ emit
            (calm tid files)
            asked
            (accepted_oack (calm tid files) asked)
            (record s { session = some (get (opened tid files client asked name file)) })
  unfolding start
  start-opened name file asked s a found =
      ap
        (λ o. elim o [
          | none ↦ (s, [])
          | some n ↦ if is_nil n then (s, []) else start_named (calm tid files) asked 1 n s
        ])
        a.has_name
      ∙ (if_false (is_nil name) _ _ a.not_empty
          ∙ ap
              (λ o. elim o [
                | none ↦
                    emit (calm tid files) asked
                      (error_packet (calm tid files) asked 1 (not_found (calm tid files) asked)) s
                | some f ↦ start_get (calm tid files) asked name f s
              ])
              found)

  pub respond_read :
      (name file : Bytes) (asked : Datagram) (s : Server)
      → Asks tid files client 1 name asked
      → named name files ≡ some file
      → (respond_tftp (calm tid files) asked s).0.session
        ≡ some (get (opened tid files client asked name file))
  unfolding respond_tftp
  respond_read name file asked s a found =
      let s1 : Server = record s { packet_count = s.packet_count + 1 } in
      let opcode = if leb 2 (length asked.payload) then word_at asked.payload 0 else 0 in
      let is_one : opcode ≡ 1 = if_true _ _ _ a.is_long ∙ a.is_opcode in
      let port = is_request_port (calm tid files) asked.destination_port in
      let turn : respond_tftp (calm tid files) asked s ≡ start (calm tid files) asked opcode s1 =
        if_false _ _ _
          (any_port port (asked.destination_port == server_tid (calm tid files)) a.on_port)
        ∙ (if_false _ _ _ (counts s.packet_count)
            ∙ if_true _ _ _ (reads opcode port is_one a.on_port)) in
      ap (λ r. r.0.session)
        (turn
          ∙ (ap (λ n. start (calm tid files) asked n s1) is_one
              ∙ start-opened name file asked s1 a found))
