-- ===== src/Peer/Tftp/Store.antt =====
-- An upload from start to end.
use sprinter_3c509b.Base.{
  ℕ, suc, ◌+◌, ◌%◌, Bool, true, false, not, ◌&&◌, ◌||◌, Option, none, some, List, [], ◌∷◌, ◌++◌,
  leb, ltb, ◌==◌, if◌then◌else◌, if_false, if_true, if_both, not-eq_false, length, Bytes, equal,
  word_at, high, low, ◌≡◌, refl, ap, ap₂, ◌∙◌, sym, ◌≤◌, ◌<◌, arith, append_assoc, lt→ltb, le→ltb,
}
use sprinter_3c509b.Frame.Udp.{Datagram}
use sprinter_3c509b.Peer.Tcp.Drain.{is_nil}
use sprinter_3c509b.Peer.Text.{joined, value_of, with_value}
use sprinter_3c509b.Peer.Text.Entries.{value_of-with}
use sprinter_3c509b.Peer.Tftp.{
  Upload, put, Server, server_tid, is_request_port, emit, in_session, take_block, respond_tftp,
  start, start_named, accepted_oack,
}
use sprinter_3c509b.Peer.Tftp.Client.{calm, Asks}
use sprinter_3c509b.Peer.Tftp.Turns.{is_own, counts, any_port}

-- The session with one more block.
abbrev taken : Upload → Bytes → Upload
taken u c = record u { chunks = u.chunks ++ (c ∷ []); expected = (u.expected + 1) % 65536 }

-- Every block but the last fills its datagram.
abbrev pub AllFull : List Bytes → Type 0
AllFull [] = Unit
AllFull (c ∷ cs) = (1428 ≤ length c) × AllFull cs

long_enough : (n : ℕ) → (true && leb 4 (suc (suc (suc (suc n))))) ≡ true
long_enough n = ground arith

two_more : (n : ℕ) → leb 2 (suc (suc (suc (suc n)))) ≡ true
two_more n = ground arith

writes : (n : ℕ) (b : Bool) → n ≡ 2 → b ≡ true → ((n == 1 || n == 2) && b) ≡ true
writes n b h k = ground arith

uploads_if :
    (b : Bool) (x y : Server) → (if b then x else y).uploads ≡ (if b then x.uploads else y.uploads)
uploads_if true x y = refl
uploads_if false x y = refl

no_request : (n : ℕ) (b : Bool) → n ≡ 3 → ((n == 1 || n == 2) && b) ≡ false
no_request n b h = ground arith

-- What a block that is expected leaves.
take_block-expected :
    (tid : Option ℕ) (files : List (Bytes × Bytes)) (r : Datagram) (u : Upload) (block : ℕ)
    (c : Bytes) (s : Server)
    → u.expected ≡ block
    → let t = take_block (calm tid files) r u block c s in
      (t.session ≡ some (put (taken u c)))
      × (t.uploads ≡ (
          if ltb (length c) u.block_size
          then with_value u.name (joined (u.chunks ++ (c ∷ []))) s.uploads
          else s.uploads))
unfolding take_block
take_block-expected tid files r u block c s e =
    let whole = if_false (not (block == u.expected)) s _ (not-eq_false block u.expected (sym e)) in
    (
      ap (λ t. t.session) whole
          ∙ if_both (λ (t : Server). t.session ≡ some (put (taken u c)))
              (ltb (length c) u.block_size) refl refl,
      ap (λ t. t.uploads) whole ∙ uploads_if (ltb (length c) u.block_size) _ _,
    )

module _ (tid : Option ℕ) (files : List (Bytes × Bytes)) (client : Datagram) where
  -- A block of the file, as the client sends it.
  abbrev pub data_of : ℕ → Bytes → Datagram
  data_of block c = record client {
    destination_port = server_tid (calm tid files);
    payload = 0 ∷ 3 ∷ high block ∷ low block ∷ c;
  }

  unfoldable pub send_all : ℕ → List Bytes → Server → Server
  send_all block [] s = s
  send_all block (c ∷ cs) s =
      send_all (block + 1) cs (respond_tftp (calm tid files) (data_of block c) s).0

  respond_data :
      (block : ℕ) (c : Bytes) (u : Upload) (s : Server)
      → block < 65536
      → s.session ≡ some (put u)
      → respond_tftp (calm tid files) (data_of block c) s
        ≡ emit (calm tid files) (data_of block c) (0 ∷ 4 ∷ high block ∷ low block ∷ []) (
            take_block
              (calm tid files)
              (data_of block c)
              u
              block
              c
              (record s { packet_count = s.packet_count + 1 }))
  unfolding respond_tftp
  respond_data block c u s small e =
      let o = calm tid files in
      let r = data_of block c in
      let s1 : Server = record s { packet_count = s.packet_count + 1 } in
      let opcode = if leb 2 (length r.payload) then word_at r.payload 0 else 0 in
      let is_three : opcode ≡ 3 = if_true _ _ _ (two_more (length c)) in
      let turn : respond_tftp o r s ≡ in_session o r opcode s1 s.session =
        if_false _ _ _ (is_own (server_tid o) (is_request_port o (server_tid o)))
        ∙ (if_false _ _ _ (counts s.packet_count)
            ∙ (if_false _ _ _ (no_request opcode (is_request_port o (server_tid o)) is_three)
                ∙ if_false _ _ _ (not-eq_false (server_tid o) (server_tid o) refl))) in
      turn
      ∙ (ap (λ n. in_session o r n s1 s.session) is_three
          ∙ (ap (in_session o r 3 s1) e
              ∙ (if_true _ _ _ (long_enough (length c))
                  ∙ ap
                      (λ b.
                        emit o r (0 ∷ 4 ∷ high block ∷ low block ∷ []) (take_block o r u b c s1))
                      (omega arith))))

  -- The blocks that are left, with those that the server has.
  send_rest :
      (full : List Bytes) (last : Bytes) (block : ℕ) (u : Upload) (s : Server)
      → s.session ≡ some (put u)
      → u.expected ≡ block
      → u.block_size ≡ 1428
      → AllFull full
      → length last < 1428
      → block + length full < 65536
      → (send_all block (full ++ (last ∷ [])) s).uploads
        ≡ with_value u.name (joined (u.chunks ++ (full ++ (last ∷ [])))) s.uploads
  unfolding send_all emit
  send_rest [] last block u s e next size all short few =
      let t =
        take_block-expected tid files (data_of block last) u block last
          (record s { packet_count = s.packet_count + 1 }) next in
      ap (λ r. r.0.uploads) (respond_data block last u s (omega arith) e)
      ∙ (t.1 ∙ if_true _ _ _ (lt→ltb (length last) u.block_size (omega arith)))
  send_rest (c ∷ cs) last block u s e next size (is_full, all) short few =
      let t =
        take_block-expected tid files (data_of block c) u block c
          (record s { packet_count = s.packet_count + 1 }) next in
      let r = respond_tftp (calm tid files) (data_of block c) s in
      let turn = respond_data block c u s (omega arith) e in
      let kept : r.0.uploads ≡ s.uploads =
        ap (λ r. r.0.uploads) turn
        ∙ (t.1 ∙ if_false _ _ _ (le→ltb (length c) u.block_size (omega arith))) in
      send_rest cs last (block + 1) (taken u c) r.0 (ap (λ r. r.0.session) turn ∙ t.0) (omega arith)
        size all short (omega arith)
      ∙ ap₂ (λ l rest. with_value u.name (joined l) rest)
          (append_assoc u.chunks (c ∷ []) (cs ++ (last ∷ []))) kept

  -- The session that a write request opens.
  abbrev opened_for : Datagram → Bytes → Upload
  opened_for asked name = record {
    name = name;
    chunks = [];
    expected = 1;
    block_size = 1428;
    client_port = asked.source_port;
  }

  start-opened_for :
      (name : Bytes) (asked : Datagram) (s : Server)
      → Asks tid files client 2 name asked
      → start (calm tid files) asked 2 s
        ≡ emit
            (calm tid files)
            asked
            (accepted_oack (calm tid files) asked)
            (record s { session = some (put (opened_for asked name)) })
  unfolding start
  start-opened_for name asked s a =
      ap
        (λ o. elim o [
          | none ↦ (s, [])
          | some n ↦ if is_nil n then (s, []) else start_named (calm tid files) asked 2 n s
        ])
        a.has_name
      ∙ if_false (is_nil name) _ _ a.not_empty

  respond_write :
      (name : Bytes) (asked : Datagram) (s : Server)
      → Asks tid files client 2 name asked
      → let t = (respond_tftp (calm tid files) asked s).0 in
        (t.session ≡ some (put (opened_for asked name))) × (t.uploads ≡ s.uploads)
  unfolding respond_tftp
  respond_write name asked s a =
      let o = calm tid files in
      let s1 : Server = record s { packet_count = s.packet_count + 1 } in
      let opcode = if leb 2 (length asked.payload) then word_at asked.payload 0 else 0 in
      let is_two : opcode ≡ 2 = if_true _ _ _ a.is_long ∙ a.is_opcode in
      let port = is_request_port o asked.destination_port in
      let turn : respond_tftp o asked s ≡ start o asked opcode s1 =
        if_false _ _ _ (any_port port (asked.destination_port == server_tid o) a.on_port)
        ∙ (if_false _ _ _ (counts s.packet_count)
            ∙ if_true _ _ _ (writes opcode port is_two a.on_port)) in
      let whole = turn ∙ (ap (λ n. start o asked n s1) is_two ∙ start-opened_for name asked s1 a) in
      (ap (λ r. r.0.session) whole, ap (λ r. r.0.uploads) whole)

  send_all-uploads :
      (name : Bytes) (asked : Datagram) (s : Server) (full : List Bytes) (last : Bytes)
      → Asks tid files client 2 name asked
      → AllFull full
      → length last < 1428
      → length full < 65535
      → (send_all 1 (full ++ (last ∷ [])) (respond_tftp (calm tid files) asked s).0).uploads
        ≡ with_value name (joined (full ++ (last ∷ []))) s.uploads
  send_all-uploads name asked s full last a all short few =
      let (session, uploads) = respond_write name asked s a in
      send_rest full last 1 (opened_for asked name) (respond_tftp (calm tid files) asked s).0
        session refl refl all short (omega arith)
      ∙ ap (λ rest. with_value name (joined (full ++ (last ∷ []))) rest) uploads

  -- A client that asks to write a file and sends it in full blocks and a short one leaves the server
  -- with that file under its name, whether or not it had one there, and with every other file as it
  -- was. The server has no faults, and there are fewer than 65535 full blocks.
  pub respond_tftp-store :
      (name : Bytes) (asked : Datagram) (s : Server) (full : List Bytes) (last : Bytes)
      → Asks tid files client 2 name asked
      → AllFull full
      → length last < 1428
      → length full < 65535
      → (other : Bytes)
      → let t = send_all 1 (full ++ (last ∷ [])) (respond_tftp (calm tid files) asked s).0 in
        value_of other t.uploads ≡ (
          if equal name other
          then some (joined (full ++ (last ∷ [])))
          else value_of other s.uploads)
  respond_tftp-store name asked s full last a all short few other =
      ap (value_of other) (send_all-uploads name asked s full last a all short few)
      ∙ value_of-with name (joined (full ++ (last ∷ []))) other s.uploads
