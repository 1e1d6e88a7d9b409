-- ===== src/Peer/Tftp/Fetch.antt =====
-- A download from start to end.
use sprinter_3c509b.Base.{
  ℕ, zero, suc, ◌+◌, ◌*◌, ◌/◌, Option, none, some, List, ◌++◌, ltb, if_false, length, take, drop,
  Bytes, AllBytes, take_all, take-append-drop, if_cases, ◌≡◌, refl, ap, ◌∙◌, sym, ◌≤◌, ◌<◌, arith,
}
use mathlib.Core.Path.{subst}
use sprinter_3c509b.Frame.Udp.{Datagram}
use sprinter_3c509b.Peer.Text.{named}
use sprinter_3c509b.Peer.Tftp.{Download, get, Server, block_of, respond_tftp}
use sprinter_3c509b.Peer.Tftp.Client.{
  calm, with_front, continue, ack_of, receive, fetch, FitsWire, Asks, opened,
}
use sprinter_3c509b.Peer.Tftp.Blocks.{drop_past, block_of-next, short_part, full_part}
use sprinter_3c509b.Peer.Tftp.Turns.{respond_ack, receive_block, respond_read}

module _ (tid : Option ℕ) (files : List (Bytes × Bytes)) (client : Datagram) where
  module _ (v : FitsWire tid files client) (file : Bytes) (bytes : AllBytes file) (size : ℕ)
      (low_size : 1 ≤ size) (high_size : size ≤ 1468) where
    -- A session that sends the file and has not met its last block.
    record Sends (s : Server) : Type 0 where
      download : Download
      in_session_of : s.session ≡ some (get download)
      of_file : download.file ≡ file
      in_blocks : download.block_size ≡ size
      open_ended : download.final_block ≡ none

    fetch_rest :
        (fuel ack at : ℕ) (s : Server)
        → Sends s
        → ack + fuel ≤ 65535
        → at ≡ ack * size
        → at ≤ length file
        → length file < at + fuel * size
        → fetch tid files client size fuel ack s ≡ some (drop at file)
    unfolding fetch
    fetch_rest zero ack at s w few e in_file enough = absurd (omega arith)
    fetch_rest (suc fuel) ack at s w few e in_file enough =
        let d = w.download in
        let r = respond_tftp (calm tid files) (ack_of tid files client ack) s in
        let rest = fetch tid files client size fuel (ack + 1) r.0 in
        let block = block_of d (ack + 1) in
        let part = take size (drop at file) in
        let step =
          respond_ack tid files client ack d s (omega arith) w.open_ended w.in_session_of in
        let is_part : block ≡ part =
          block_of-next d ack at (e ∙ ap (λ b. ack * b) (sym w.in_blocks))
          ∙ (ap (λ b. take b (drop at d.file)) w.in_blocks
              ∙ ap (λ f. take size (drop at f)) w.of_file) in
        let got : receive tid files client (ack + 1) r.1 ≡ some part =
          ap (receive tid files client (ack + 1)) step.1
          ∙ (receive_block tid files client v (ack + 1) d (omega arith) (omega arith) (omega arith)
                (subst AllBytes (sym w.of_file) bytes) ack
              ∙ ap some is_part) in
        ap (λ o. continue size o rest) got
        ∙ if_cases (λ o. o ≡ some (drop at file)) (ltb (length part) size)
            (λ short. ap some (take_all size (drop at file) (short_part size at file short)))
            (λ full.
              let more = full_part size at file low_size full in
              ap (with_front part) (
                fetch_rest fuel (ack + 1) (at + size) r.0
                  (record {
                    download = d;
                    in_session_of =
                        step.0
                        ∙ ap (λ d. some (get d))
                            (if_false (ltb (length block) d.block_size) _ d (
                              ap (λ b. ltb (length b) d.block_size) is_part
                              ∙ (ap (ltb (length part)) w.in_blocks ∙ full)));
                    of_file = w.of_file;
                    in_blocks = w.in_blocks;
                    open_ended = w.open_ended;
                  })
                  (omega arith) (omega arith) more (omega arith))
              ∙ ap some (
                  ap (λ behind. part ++ behind) (sym (drop_past at size file))
                  ∙ take-append-drop size (drop at file)))

  -- A client that asks a server without faults for a file of its list and acknowledges every block
  -- gets the whole file from answers that are not lost, in one more block than the file fills,
  -- whatever the server did before. The addresses and ports fit their fields, and the file has fewer
  -- than 65535 full blocks of 1428 bytes.
  pub respond_tftp-fetch :
      FitsWire tid files client
      → (name file : Bytes) (asked : Datagram) (s : Server) → Asks tid files client 1 name asked
      → named name files ≡ some file
      → AllBytes file
      → length file / 1428 < 65535
      → fetch tid files client 1428
          (suc (length file / 1428))
          0
          (respond_tftp (calm tid files) asked s).0
        ≡ some file
  respond_tftp-fetch v name file asked s a found bytes few =
      fetch_rest v file bytes 1428 (omega arith) (omega arith) (suc (length file / 1428)) 0 0
        (respond_tftp (calm tid files) asked s).0
        (record {
          download = opened tid files client asked name file;
          in_session_of = respond_read tid files client name file asked s a found;
          of_file = refl;
          in_blocks = refl;
          open_ended = refl;
        })
        (omega arith) (omega arith) (omega arith) (omega arith)
