-- ===== src/Peer/Tcp/Respond.antt =====
-- `respondTcp`: what the responder does with one segment of the client.
pub mod Range
pub mod Echo
use sprinter_3c509b.Base.{
  ℕ, ◌+◌, ◌*◌, Bool, true, false, not, ◌&&◌, ◌||◌, Option, none, some, List, [], ◌∷◌, ◌++◌, leb,
  ◌==◌, if◌then◌else◌, length, Bytes, or_default, or_nonzero, add32,
}
use sprinter_3c509b.Card.{Reply}
use sprinter_3c509b.Frame.Tcp.{Segment, build_tcp_reply}
use sprinter_3c509b.Peer.Tcp.{
  Connection, Mode, drop_all, Options, Key, Connections, find, delete, store, Responder,
  reply_options, at_once,
}
use sprinter_3c509b.Peer.Tcp.Stages.{has, on_connection}

abbrev pub key_of : Segment → Key
key_of s = record {
  source = s.source;
  source_port = s.source_port;
  destination_port = s.destination_port;
}

abbrev pub is_drop_all : Mode → Bool
is_drop_all drop_all = true
is_drop_all _ = false

-- The connection that a SYN opens, the `ordinal`-th in the table.
abbrev pub open_connection : Options → Segment → ℕ → Connection
open_connection o segment ordinal =
    let isn = add32 (or_default o.server_isn 0x10203040) (ordinal * 0x10000) in
    record {
      server_isn = isn;
      server_next = add32 isn 1;
      server_acked = add32 isn 1;
      client_next = add32 segment.sequence 1;
      client_mss = or_nonzero (some segment.mss) 536;
      send_queue = [];
      client_window = segment.window;
      established = false;
      advertised_window = if not (o.zero_window_probes == 0) then 0 else or_default o.window 4096;
      fin_sent = false;
      http_request = [];
      http_ready = false;
      last_segment = some segment;
      aborted = false;
      probes = 0;
      client_in_flight = 0;
      lost_sequences = [];
      hole_ack = none;
      sent_segments = none;
      recover = none;
      duplicate_acks = 0;
      bad_rst_sent = false;
      out_of_order_sent = false;
      corrupt_sent = false;
      bad_fin_sent = false;
      bytes_sent = 0;
      ftp_accum = [];
      bytes_received = 0;
    }

module _ (o : Options) (segment : Segment) where
  -- A reply that belongs to no connection.
  abbrev pub refusal : ℕ → ℕ → Bytes
  refusal acknowledgement flags =
      build_tcp_reply segment (reply_options o 0 acknowledgement flags 0 [])

  -- The connection that a SYN goes to: a known one only where the SYN is its own.
  abbrev pub syn_with : Connections → Option Connection → Connection
  syn_with m none = open_connection o segment (length m + 1)
  syn_with m (some c) =
      if c.client_next == add32 segment.sequence 1
      then record c { last_segment = some segment }
      else open_connection o segment (length m + 1)

  abbrev pub syn_connection : Connections → Connection
  syn_connection m = syn_with m (find (key_of segment) m)

  unfoldable pub on_syn : Responder → Responder × List Reply
  on_syn r =
      let t = record r.tally { syn_count = r.tally.syn_count + 1 } in
      let counted = record r { tally = t } in
      let c = syn_connection r.connections in
      if leb t.syn_count o.drop_syn
      then (counted, [])
      else if o.reset_on_syn && (o.reset_always || t.syn_count == or_nonzero o.reset_on_syn_at 1)
      then (counted, at_once (refusal (add32 segment.sequence 1) 0x14) ∷ [])
      else (
        record counted { connections = store (key_of segment) c r.connections },
        at_once (
              build_tcp_reply segment
                (reply_options o c.server_isn c.client_next 0x12 c.advertised_window []))
            ∷ [],
      )

  -- A segment on the connection `c`.
  unfoldable pub on_known : Connection → Responder → Responder × List Reply
  on_known c r =
      let l = on_connection o segment (record { tally = r.tally; connection = c; out = [] }) in
      if c.aborted then (r, []) else (
        record { tally = l.tally; connections = store (key_of segment) l.connection r.connections },
        l.out,
      )

  -- A segment that opens nothing, for what the table has under its key.
  abbrev pub on_found : Responder → Option Connection → Responder × List Reply
  on_found r none = (r, at_once (refusal 0 4) ∷ [])
  on_found r (some c) = on_known c r

  unfoldable pub respond_tcp : Responder → Responder × List Reply
  unfolding on_syn on_known
  respond_tcp r =
      let t = record r.tally { request_count = r.tally.request_count + 1 } in
      let counted = record r { tally = t } in
      if has 4 segment.flags
      then (
        record {
          tally = record t { reset_ports = t.reset_ports ++ (segment.destination_port ∷ []) };
          connections = delete (key_of segment) r.connections;
        },
        [],
      )
      else if leb t.request_count o.drop || is_drop_all o.mode
      then (counted, [])
      else if has 2 segment.flags
      then on_syn counted
      else on_found counted (find (key_of segment) r.connections)
