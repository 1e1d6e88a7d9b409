-- ===== src/Peer/Tcp/Credit.antt =====
-- `creditClientAck`: what the responder notes when the program takes a frame out of the receive
-- FIFO.
use sprinter_3c509b.Base.{
  ℕ, Option, none, some, List, [], ◌∷◌, Bytes, ltb, ◌==◌, not, if◌then◌else◌, sub32,
}
use sprinter_3c509b.Frame.Tcp.{Segment, tcp_segment}
use sprinter_3c509b.Peer.Tcp.{Connection, Key, Responder, find, store}
use sprinter_3c509b.Peer.Tcp.Drain.{is_nil}
use sprinter_3c509b.Peer.Tcp.Recover.{offset}
use sprinter_3c509b.Peer.Tcp.Stages.{has}

-- The key of the connection that the frame comes from, seen from the client.
abbrev pub reply_key : Segment → Key
reply_key s = record {
  source = s.destination;
  source_port = s.destination_port;
  destination_port = s.source_port;
}

-- `Set.delete`
abbrev pub without : ℕ → List ℕ → List ℕ
without n [] = []
without n (x ∷ xs) = if x == n then without n xs else x ∷ without n xs

-- The nearer of two lost sequence numbers; of two that are as near, the second.
abbrev pub earlier : Connection → ℕ → Option ℕ → Option ℕ
earlier c a none = some a
earlier c a (some b) = if ltb (offset c a) (offset c b) then some a else some b

-- The first hole in front of `sequence`.
abbrev pub first_hole : Connection → ℕ → List ℕ → Option ℕ
first_hole c sequence [] = none
first_hole c sequence (x ∷ xs) =
    if ltb (offset c x) (offset c sequence)
    then earlier c x (first_hole c sequence xs)
    else first_hole c sequence xs

-- A segment of the server that the program has read: its bytes are no longer lost. With no lost
-- segment there is no hole either, so a missing set is the empty list.
abbrev pub read_data : Segment → Connection → Connection
read_data s c =
    let lost = without s.sequence c.lost_sequences in
    if is_nil s.payload
    then c
    else record c { lost_sequences = lost; hole_ack = first_hole c s.sequence lost }

-- What the frame acknowledges is no longer in flight from the client's side.
abbrev pub credited : Segment → Connection → Connection
credited s c =
    let left = sub32 c.client_next s.acknowledgement in
    read_data s (record c { client_in_flight = if ltb 0x7fffffff left then 0 else left })

abbrev pub credit_segment : Segment → Responder → Responder
credit_segment s r =
    let k = reply_key s in
    if not (has 0x10 s.flags) then r else elim (find k r.connections) [
      | none ↦ r
      | some c ↦ record r { connections = store k (credited s c) r.connections }
    ]

-- `creditClientAck`
unfoldable pub credit_client_ack : Bytes → Responder → Responder
credit_client_ack frame r = elim (tcp_segment frame) [ none ↦ r | some s ↦ credit_segment s r ]
