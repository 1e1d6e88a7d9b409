-- ===== src/Peer/Tcp/Respond/Echo.antt =====
-- The echo server: what the client sends in order comes back.
use sprinter_3c509b.Base.{
  ℕ, ◌+◌, ◌≡◌, sym, ap, ◌∙◌, Bool, false, ◌||◌, [], ◌∷◌, ◌++◌, ◌==◌, if_false, or_false, leb, List,
  some, length, Bytes, AllBytes, AllBytes-append, length-append, arith,
}
use mathlib.Core.Path.{subst}
use sprinter_3c509b.Card.{Reply}
use sprinter_3c509b.Frame.Tcp.{Segment}
use sprinter_3c509b.Peer.Tcp.{Connection, Options, Link, Responder, Tally, find}
use sprinter_3c509b.Peer.Tcp.Drain.{is_nil, drain}
use sprinter_3c509b.Peer.Tcp.Drain.Client.{collect, Fits}
use sprinter_3c509b.Peer.Tcp.Drain.Deliver.{IsSound}
use sprinter_3c509b.Peer.Tcp.Drain.Window.{is_nil-length}
use sprinter_3c509b.Peer.Tcp.Drain.Whole.{HasRoom, drain-whole}
use sprinter_3c509b.Peer.Tcp.Respond.{key_of, is_drop_all, on_syn, on_known, on_found, respond_tcp}
use sprinter_3c509b.Peer.Tcp.Stages.{
  has, ◌and_then◌, note_window, establish, answer_probe, receive, close, flush, on_connection,
}
use sprinter_3c509b.Peer.Tcp.Stages.Echo.{
  IsEcho, IsNext, IsWaiting, none_out, room_left, no_drops, passed, noted_link, note_all,
  establish_again, no_probe, taken_link, receive_data, close_none, flush_whole,
}

module _ (o : Options) (segment : Segment) where
  -- The link that is drained at the end.
  abbrev echo_link : Tally → Connection → Link
  echo_link tally c =
      taken_link o segment
        (noted_link o segment (record { tally = tally; connection = c; out = [] }))

  busy :
      (xs ys : Bytes) (n : ℕ)
      → xs ≡ []
      → is_nil ys ≡ false
      → (n == 0) ≡ false
      → is_nil (xs ++ ys) || n == 0 ≡ false
  busy [] ys n e h k = ground arith
  busy (x ∷ xs) ys n e h k = k

  on_connection-echo :
      (tally : Tally) (c : Connection)
      → IsEcho o
      → IsNext o c segment
      → IsWaiting o c
      → on_connection o segment (record { tally = tally; connection = c; out = [] })
        ≡ (drain o segment (echo_link tally c)).1
  unfolding on_connection note_window
  on_connection-echo tally c v n w =
      let l : Link = record { tally = tally; connection = c; out = [] } in
      let noted = noted_link o segment l in
      ap
        (λ k.
          ((establish o segment k and_then answer_probe o segment)
            and_then receive o segment
            and_then close o segment
            and_then flush o segment).1)
        (note_all o segment c.client_window l n.ack n.acknowledgement w.nothing_sent)
      ∙ ap (λ (r : Bool × Link). r.1)
          (passed o segment _ (taken_link o segment noted) (flush o segment) (
              passed o segment _ (taken_link o segment noted) (close o segment) (
                passed o segment _ noted (receive o segment) (
                  passed o segment _ noted (answer_probe o segment)
                    (establish_again o segment noted w.established)
                  ∙ no_probe o segment noted v.no_probes)
                ∙ receive_data o segment noted v n.some_data n.sequence)
              ∙ close_none o segment (taken_link o segment noted) n.no_fin)
            ∙ flush_whole o segment (taken_link o segment noted) (
                busy c.send_queue segment.payload _ w.empty n.some_data (
                  room_left segment.window c.server_next segment.acknowledgement
                    (length segment.payload) n.acknowledgement
                    (is_nil-length segment.payload n.some_data) n.room)))

  echo_link-IsSound :
      (tally : Tally) (c : Connection)
      → IsNext o c segment
      → IsWaiting o c
      → IsSound o (echo_link tally c).connection
  unfolding note_window
  echo_link-IsSound tally c n w = record {
    next = w.next;
    window = w.window;
    mss = w.mss;
    queue = AllBytes-append c.send_queue segment.payload (subst AllBytes (sym w.empty) tt) n.bytes;
  }

  echo_link-HasRoom :
      (tally : Tally) (c : Connection)
      → IsNext o c segment
      → IsWaiting o c
      → HasRoom (echo_link tally c).connection
  unfolding note_window
  echo_link-HasRoom tally c n w = record {
    next = w.next;
    acked = omega (arith, n.acknowledgement, w.next);
    window = n.window;
    room = omega (
      arith,
      none_out c.server_next segment.acknowledgement n.acknowledgement,
      length-append c.send_queue segment.payload,
      ap length w.empty,
      n.room,
    );
  }

  answers :
      (r : Responder) (c : Connection)
      → IsEcho o
      → IsNext o c segment
      → IsWaiting o c
      → find (key_of segment) r.connections ≡ some c
      → let t = record r.tally { request_count = r.tally.request_count + 1 } in
        (respond_tcp o segment r).1 ≡ (drain o segment (echo_link t c)).1.out
  unfolding respond_tcp on_known
  answers r c v n w found =
      let t = record r.tally { request_count = r.tally.request_count + 1 } in
      let counted = record r { tally = t } in
      let l = on_connection o segment (record { tally = t; connection = c; out = [] }) in
      ap (λ (x : Responder × List Reply). x.1)
        (if_false (has 4 segment.flags) _ _ n.no_rst
          ∙ (if_false (leb t.request_count o.drop || is_drop_all o.mode) (counted, []) _
                (or_false (leb t.request_count o.drop) (is_drop_all o.mode)
                  (no_drops r.tally.request_count o.drop v.no_drop) (ap is_drop_all v.mode))
              ∙ (if_false (has 2 segment.flags) (on_syn o segment counted) _ n.no_syn
                  ∙ (ap (on_found o segment counted) found
                      ∙ if_false c.aborted (counted, []) _ w.alive))))
      ∙ ap (λ (k : Link). k.out) (on_connection-echo t c v n w)

  -- The echo server sends back what it receives: a data segment in order on a waiting connection is
  -- answered with frames from which a client that waits for the connection's next number, and gets
  -- only those that are not lost, collects exactly the payload. The scenario asks for no fault, the client has acknowledged all that was
  -- sent, its window has room for the payload, the addresses and ports fit their fields, and a
  -- segment has at most 1460 bytes.
  pub respond_tcp-echo :
      (r : Responder) (c : Connection)
      → IsEcho o
      → Fits o segment
      → find (key_of segment) r.connections ≡ some c
      → IsNext o c segment
      → IsWaiting o c
      → collect (respond_tcp o segment r).1 c.server_next ≡ segment.payload
  unfolding note_window
  respond_tcp-echo r c v f found n w =
      let t = record r.tally { request_count = r.tally.request_count + 1 } in
      let (frames, out, empty, collected) =
        drain-whole o segment v.quiet (echo_link t c) f (echo_link-IsSound t c n w)
          (echo_link-HasRoom t c n w) in
      ap (λ (rs : List Reply). collect rs c.server_next) (answers r c v n w found ∙ out)
      ∙ (collected ∙ ap (λ q. q ++ segment.payload) w.empty)
