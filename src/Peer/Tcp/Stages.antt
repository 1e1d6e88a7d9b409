-- ===== src/Peer/Tcp/Stages.antt =====
-- The stages of `respondTcp` for a segment on a known connection, in the order of the source. A
-- stage says whether the function returns there.
pub mod Range
pub mod Echo
use sprinter_3c509b.Base.{
  ℕ, ◌+◌, Bool, true, false, not, ◌&&◌, ◌||◌, Option, none, some, [], ◌∷◌, ◌++◌, max, bit_and, leb,
  ◌==◌, if◌then◌else◌, length, Bytes, or_default, or_nonzero, add32, sub32, List,
}
use sprinter_3c509b.Frame.Tcp.{Segment}
use sprinter_3c509b.Peer.Http.{http_response}
use sprinter_3c509b.Peer.Tcp.{Sent, Connection, Options, Link, at_once, emit}
use sprinter_3c509b.Peer.Tcp.Drain.{is_nil, is_http, data_frame, drain}
use sprinter_3c509b.Peer.Tcp.Recover.{recover_loss}

abbrev pub has : ℕ → ℕ → Bool
has flag flags = not (bit_and flags flag == 0)

abbrev pub is_at : Option ℕ → ℕ → Bool
is_at none n = false
is_at (some m) n = n == m

-- `httpRequest.includes('\r\n\r\n')`
abbrev pub has_blank_line : Bytes → Bool
has_blank_line [] = false
has_blank_line (a ∷ []) = false
has_blank_line (a ∷ b ∷ []) = false
has_blank_line (a ∷ b ∷ c ∷ []) = false
has_blank_line (a ∷ b ∷ c ∷ d ∷ rest) =
    a == 13 && b == 10 && c == 13 && d == 10 || has_blank_line (b ∷ c ∷ d ∷ rest)

-- A stage after another one that did not return.
infixl 5 ◌and_then◌
abbrev pub ◌and_then◌ : Bool × Link → (Link → Bool × Link) → Bool × Link
r and_then next = if r.0 then r else next r.1

module _ (o : Options) (segment : Segment) where
  -- A reply with no payload, to the card at once, for the connection as it is.
  abbrev pub queue : ℕ → ℕ → ℕ → Link → Link
  queue sequence flags window l =
      emit (at_once (data_frame o segment l.connection sequence flags window [])) l

  abbrev pub acknowledge : Link → Link
  acknowledge l = queue l.connection.server_next 0x10 l.connection.advertised_window l

  -- The client's window, and whether it changed while a hole is open.
  unfoldable pub note_window : Link → Link
  note_window l =
      let c = l.connection in
      let changed =
        is_at c.hole_ack segment.acknowledgement
        && is_nil segment.payload
        && not (segment.window == c.client_window) in
      record l {
        connection = record c { last_segment = some segment; client_window = segment.window };
        tally = record l.tally {
          hole_window_changes = l.tally.hole_window_changes + (if changed then 1 else 0);
        };
      }

  -- The acknowledgement: taken only where it lies in what is outstanding.
  unfoldable pub take_ack : Connection → Connection
  take_ack c =
      if leb (sub32 segment.acknowledgement c.server_acked) (sub32 c.server_next c.server_acked)
      then record c { server_acked = segment.acknowledgement }
      else c

  -- The loss recovery, for a connection whose segments are recorded.
  abbrev pub recovered : ℕ → ℕ → Link → Option (List Sent) → Link
  recovered previous_ack previous_window l none = l
  recovered previous_ack previous_window l (some sent) =
      recover_loss o segment previous_ack previous_window sent l

  unfoldable pub note_ack : ℕ → Link → Link
  unfolding take_ack
  note_ack previous_window l =
      let c = l.connection in
      if not (has 0x10 segment.flags)
      then l
      else recovered c.server_acked previous_window (record l { connection = take_ack c })
          c.sent_segments

  -- The acknowledgement of the SYN opens the connection.
  abbrev pub opens : Connection → Bool
  opens c =
      not c.established
      && is_nil segment.payload
      && not (has 1 segment.flags)
      && segment.acknowledgement == c.server_next

  unfoldable pub establish : Link → Bool × Link
  establish l =
      let c = l.connection in
      if opens c
      then (is_nil c.send_queue, record l { connection = record c { established = true } })
      else (false, l)

  -- A probe of the closed window: the window opens after enough of them.
  unfoldable pub answer_probe : Link → Bool × Link
  answer_probe l =
      let c = record l.connection { probes = l.connection.probes + 1 } in
      let opened = record c { advertised_window = or_default o.window 4096 } in
      if not (is_nil segment.payload)
        && not (o.zero_window_probes == 0)
        && segment.sequence == sub32 l.connection.client_next 1
      then (
        true,
        acknowledge
            (record l { connection = if leb o.zero_window_probes c.probes then opened else c }),
      )
      else (false, l)

  -- The server takes the data in: an http request is answered when it is whole, and anything else
  -- is sent back.
  unfoldable pub serve : Link → Link
  unfolding http_response
  serve l =
      let c = l.connection in
      let request = c.http_request ++ segment.payload in
      if not (is_http o.mode)
      then record l { connection = record c { send_queue = c.send_queue ++ segment.payload } }
      else if not c.http_ready && has_blank_line request
      then record l {
        connection = record c {
          http_request = request;
          http_ready = true;
          send_queue = http_response o.pages l.tally.http_requests request;
        };
        tally = record l.tally { http_requests = l.tally.http_requests ++ (request ∷ []) };
      }
      else record l { connection = record c { http_request = request } }

  -- The data is in order: it is counted and served.
  abbrev pub accept_data : Link → Link
  accept_data l =
      let in_flight = l.connection.client_in_flight + length segment.payload in
      record l {
        connection = record l.connection {
          client_next = add32 l.connection.client_next (length segment.payload);
          client_in_flight = in_flight;
        };
        tally = record l.tally {
          max_client_in_flight = max l.tally.max_client_in_flight in_flight;
        };
      }

  unfoldable pub take_data : Link → Bool × Link
  unfolding serve
  take_data l =
      let l1 = serve (accept_data l) in
      let marked = record l1 { connection = record l1.connection { bad_rst_sent = true } } in
      if leb l.tally.data_count o.drop_data_responses
      then (true, l1)
      else if o.out_of_sequence_rst_before_data && not l1.connection.bad_rst_sent
      then (false, queue (add32 l1.connection.server_next 1) 0x14 0 marked)
      else (false, l1)

  unfoldable pub receive : Link → Bool × Link
  unfolding take_data
  receive l =
      let l1 = record l { tally = record l.tally { data_count = l.tally.data_count + 1 } } in
      if is_nil segment.payload
      then (false, l)
      else if o.reset_on_data
          && (o.reset_always || l1.tally.data_count == or_nonzero o.reset_on_data_at 1)
      then (true, queue l.connection.server_next 0x14 0 l1)
      else if not (segment.sequence == l.connection.client_next)
      then (true, acknowledge l1)
      else take_data l1

  -- The server's FIN takes one number of its sequence space.
  abbrev pub fin_out : Link → Link
  fin_out l = record l {
    connection = record l.connection {
      fin_sent = true;
      server_next = add32 l.connection.server_next 1;
    };
  }

  -- A FIN of the client is acknowledged, with or without a FIN of the server.
  unfoldable pub close : Link → Bool × Link
  close l =
      let c = record l.connection { client_next = add32 l.connection.client_next 1 } in
      let l1 = record l { connection = c } in
      if not (has 1 segment.flags)
      then (false, l)
      else if o.ack_only_close && not c.fin_sent
      then (true, acknowledge l1)
      else if o.split_close && not c.fin_sent
      then (true, fin_out (queue c.server_next 0x11 c.advertised_window (acknowledge l1)))
      else if c.fin_sent
      then (true, acknowledge l1)
      else (true, fin_out (queue c.server_next 0x11 c.advertised_window l1))

  -- What waits goes out; data that nothing answers is acknowledged.
  unfoldable pub flush : Link → Bool × Link
  flush l =
      let (sent, l1) = drain o segment l in
      if not sent && not (is_nil segment.payload) then (true, acknowledge l1) else (true, l1)

  unfoldable pub on_connection : Link → Link
  unfolding note_window note_ack establish answer_probe receive close flush
  on_connection l =
      let noted = note_ack l.connection.client_window (note_window l) in
      ((establish noted and_then answer_probe) and_then receive and_then close and_then flush).1
