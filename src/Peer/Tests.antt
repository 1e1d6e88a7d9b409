-- ===== src/Peer/Tests.antt =====
-- The theorems on the TCP responder at a concrete connection.
use sprinter_3c509b.Base.{ℕ, ◌+◌, ◌≡◌, refl, true, false, none, List, [], ◌∷◌, length, arith}
use sprinter_3c509b.Card.{Reply}
use sprinter_3c509b.Frame.Tcp.{Segment}
use sprinter_3c509b.Peer.Tcp.{Connection, Options, echo, Tally, Link, Responder}
use sprinter_3c509b.Peer.Tcp.Stages.Range.{SegmentInRange}
use sprinter_3c509b.Peer.Tcp.Stages.{on_connection}
use sprinter_3c509b.Peer.Tcp.Respond.{key_of, respond_tcp}
use sprinter_3c509b.Peer.Tcp.Respond.Range.{AllInRange, respond_all, respond_all-AllInRange}
use sprinter_3c509b.Peer.Tcp.Drain.Quiet.{IsQuiet}
use sprinter_3c509b.Peer.Tcp.Drain.Client.{collect, Fits}
use sprinter_3c509b.Peer.Tcp.Drain.Whole.{drain-whole}
use sprinter_3c509b.Peer.Tcp.Respond.Echo.{respond_tcp-echo}
use sprinter_3c509b.Peer.Tcp.Drain.{drain}
use sprinter_3c509b.Peer.Tcp.Drain.Window.{InRange, Fills, drain-Fills}

abbrev options : Options
options = record {
  mac = none;
  ip = none;
  mode = echo;
  drop = 0;
  drop_syn = 0;
  reset_on_syn = false;
  reset_on_data = false;
  reset_always = false;
  reset_on_syn_at = none;
  reset_on_data_at = none;
  server_isn = none;
  zero_window_probes = 0;
  window = none;
  mss = none;
  drop_data_responses = 0;
  out_of_sequence_rst_before_data = false;
  ack_only_close = false;
  split_close = false;
  response_chunk_size = none;
  max_send_mss = none;
  out_of_order_before_data = false;
  keep_open = false;
  fin_when_drained = false;
  remote_fin_after_data = false;
  corrupt_data_once = none;
  lose_data_segments = none;
  duplicate_data = false;
  out_of_order_fin_after_data = false;
  abort_after_bytes = none;
  stall_after_bytes = none;
  data_delay_polls = 0;
  pages = record { responses = []; response = none };
}

abbrev tally : Tally
tally = record {
  request_count = 0;
  syn_count = 0;
  data_count = 0;
  reset_ports = [];
  data_segments_sent = 0;
  lost_data_segments = 0;
  hole_window_changes = 0;
  retransmitted_segments = 0;
  max_in_flight = 0;
  max_data_burst = 0;
  max_client_in_flight = 0;
  http_requests = [];
  http_bytes_sent = 0;
}

abbrev syn : Segment
syn = record {
  ether_source = 2 ∷ 0 ∷ 0 ∷ 0 ∷ 0 ∷ 2 ∷ [];
  source = 192 ∷ 168 ∷ 7 ∷ 2 ∷ [];
  destination = 192 ∷ 168 ∷ 7 ∷ 1 ∷ [];
  source_port = 40000;
  destination_port = 7;
  sequence = 1000;
  acknowledgement = 0;
  flags = 2;
  window = 1000;
  mss = 1460;
  payload = [];
}

-- A connection with 4 bytes to send into a window of 3.
abbrev connection : Connection
connection = record {
  server_isn = 0x10213040;
  server_next = 0x10213041;
  server_acked = 0x10213041;
  client_next = 1001;
  client_mss = 1460;
  send_queue = 1 ∷ 2 ∷ 3 ∷ 4 ∷ [];
  client_window = 3;
  established = true;
  advertised_window = 4096;
  fin_sent = false;
  http_request = [];
  http_ready = false;
  last_segment = none;
  aborted = false;
  probes = 0;
  client_in_flight = 0;
  lost_sequences = [];
  hole_ack = none;
  sent_segments = none;
  recover = none;
  duplicate_acks = 0;
  bad_rst_sent = false;
  out_of_order_sent = false;
  corrupt_sent = false;
  bad_fin_sent = false;
  bytes_sent = 0;
  ftp_accum = [];
  bytes_received = 0;
}

abbrev link : Link
link = record { tally = tally; connection = connection; out = [] }

in_range : InRange connection
in_range = record { next = omega arith; acked = omega arith; window = omega arith }

drain-Fills_example : Fills connection (drain options syn link).1.connection
drain-Fills_example = drain-Fills options syn link in_range

drain_sends : (drain options syn link).1.connection.send_queue ≡ 4 ∷ []
unfolding drain
drain_sends = refl

abbrev nobody : Responder
nobody = record { tally = tally; connections = [] }

-- The acknowledgement of the SYN that opens the connection, with 2 bytes of data.
abbrev data_segment : Segment
data_segment = record syn {
  sequence = 1001;
  acknowledgement = 0x10213041;
  flags = 0x18;
  payload = 5 ∷ 6 ∷ [];
}

respond_all-AllInRange_example :
    AllInRange (respond_all options (syn ∷ data_segment ∷ []) nobody).connections
respond_all-AllInRange_example =
    respond_all-AllInRange options (syn ∷ data_segment ∷ []) nobody (widths, (widths_too, tt)) tt
  where
    widths : SegmentInRange syn
    widths = record { sequence = omega arith; acknowledgement = omega arith; window = omega arith }

    widths_too : SegmentInRange data_segment
    widths_too = record {
      sequence = omega arith;
      acknowledgement = omega arith;
      window = omega arith;
    }

abbrev answers : Responder → List Segment → ℕ
answers r [] = 0
answers r (s ∷ rest) = length (respond_tcp options s r).1 + answers (respond_tcp options s r).0 rest

-- A SYN, ACK and the echoed data.
echo_answers : answers nobody (syn ∷ data_segment ∷ []) ≡ 2
unfolding respond_tcp on_connection drain
echo_answers = refl

-- A connection that waits, and two bytes that come in order.
abbrev waiting : Connection
waiting = record connection { send_queue = [] }

quiet : IsQuiet options
quiet = record {
  in_order = refl;
  sound = refl;
  lossless = refl;
  once = refl;
  no_early_fin = refl;
  no_fin = refl;
  no_abort = refl;
  no_stall = refl;
}

fits : Fits options data_segment
fits = record {
  ether_length = refl;
  mac_length = refl;
  source_length = refl;
  source_bytes = omega arith;
  destination_length = refl;
  destination_bytes = omega arith;
  source_port = (omega arith, omega arith);
  destination_port = (omega arith, omega arith);
  mss = omega arith;
}

respond_tcp-echo_example :
    collect
      (respond_tcp options data_segment
        (record { tally = tally; connections = (key_of data_segment, waiting) ∷ [] })).1
      0x10213041
    ≡ 5 ∷ 6 ∷ []
respond_tcp-echo_example =
    respond_tcp-echo options data_segment
      (record { tally = tally; connections = (key_of data_segment, waiting) ∷ [] }) waiting
      (record {
        quiet = quiet;
        mode = refl;
        no_drop = refl;
        no_probes = refl;
        no_reset = refl;
        answers = refl;
        no_bad_rst = refl;
      })
      fits refl
      (record {
        no_rst = refl;
        no_syn = refl;
        no_fin = refl;
        ack = refl;
        some_data = refl;
        bytes = omega arith;
        sequence = refl;
        acknowledgement = refl;
        window = omega arith;
        room = omega arith;
      })
      (record {
        established = refl;
        alive = refl;
        nothing_sent = refl;
        empty = refl;
        next = omega arith;
        window = omega arith;
        mss = omega arith;
      })

-- Four bytes into a window of four.
abbrev roomy : Link
roomy = record link { connection = record connection { client_window = 4 } }

drain-whole_example :
    let m = (drain options data_segment roomy).1 in
    (frames : List Reply) × (m.out ≡ frames)
    × (m.connection.send_queue ≡ [])
    × (collect frames 0x10213041 ≡ 1 ∷ 2 ∷ 3 ∷ 4 ∷ [])
drain-whole_example =
    drain-whole options data_segment quiet roomy fits
      (record { next = omega arith; window = omega arith; mss = omega arith; queue = omega arith })
      (record { next = omega arith; acked = omega arith; window = omega arith; room = omega arith })
