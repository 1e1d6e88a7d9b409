-- ===== src/Peer/Tcp/Drain.antt =====
-- `drainConnectionSendQueue`: the responder sends while the client's window has room.
pub mod Step
pub mod Quiet
pub mod Client
pub mod Deliver
pub mod Whole
pub mod Window
use sprinter_3c509b.Base.{
  ℕ, zero, suc, ◌+◌, ◌-◌, Bool, true, false, not, ◌&&◌, ◌||◌, Option, none, some, List, [], ◌∷◌,
  ◌++◌, min, max, bit_xor, ltb, leb, ◌==◌, if◌then◌else◌, length, take, drop, set, Bytes, byte_at,
  or_default, or_nonzero, add32, sub32,
}
use sprinter_3c509b.Frame.Tcp.{Segment, build_tcp_reply}
use sprinter_3c509b.Peer.Tcp.{
  Connection, Sent, Mode, echo, http, drop_all, Options, Tally, Link, reply_options, deliver_data,
  lost_frame, emit, in_flight,
}

abbrev pub includes : List ℕ → ℕ → Bool
includes [] n = false
includes (x ∷ xs) n = x == n || includes xs n

abbrev pub is_nil : Bytes → Bool
is_nil [] = true
is_nil (_ ∷ _) = false

abbrev pub is_http : Mode → Bool
is_http http = true
is_http _ = false

-- The room in the client's window: `Math.max(0, clientWindow - inFlight)`.
abbrev pub available : Connection → ℕ
available c = c.client_window - in_flight c

-- The most that one segment may carry.
abbrev pub send_mss : Options → Connection → ℕ
send_mss o c =
    or_nonzero o.response_chunk_size
      (min (or_nonzero (some c.client_mss) 536) (or_nonzero o.max_send_mss 1460))

abbrev pub segment_size : Options → Connection → ℕ
segment_size o c = min (send_mss o c) (min (available c) (length c.send_queue))

-- Whether the segment that leaves `rest` in the queue carries a FIN.
abbrev pub carries_fin : Options → Connection → Bytes → Bool
carries_fin o c rest =
    not c.fin_sent
    && (is_http o.mode && not o.keep_open && c.http_ready && is_nil rest
        || o.fin_when_drained && is_nil rest
        || o.remote_fin_after_data)

-- One frame of this responder on a connection.
abbrev pub data_frame : Options → Segment → Connection → ℕ → ℕ → ℕ → Bytes → Bytes
data_frame o template c sequence flags window payload =
    build_tcp_reply template (reply_options o sequence c.client_next flags window payload)

module _ (o : Options) (template : Segment) where
  -- The copy of the data that a scenario sends ahead of its time.
  unfoldable pub send_out_of_order : Bytes → Link → Link
  send_out_of_order payload l =
      let c = l.connection in
      if o.out_of_order_before_data && not c.out_of_order_sent
      then emit
          (deliver_data o (
            data_frame o template c (add32 c.server_next (length payload)) 0x18
              (or_default o.window 4096) payload))
          (record l { connection = record c { out_of_order_sent = true } })
      else l

  -- The damaged copy that a scenario sends before the good one; `true` in the scenario is offset 0,
  -- and the offset lies in the frame.
  unfoldable pub send_corrupt : Bytes → Bytes → Link → Link
  send_corrupt payload reply l = elim o.corrupt_data_once [
    | none ↦ l
    | some at ↦
        if l.connection.corrupt_sent || is_nil payload
        then l
        else emit (deliver_data o (set reply (54 + at) (bit_xor (byte_at reply (54 + at)) 0xff)))
            (record l { connection = record l.connection { corrupt_sent = true } })
  ]

  -- The segment is recorded for the loss model, and sent or lost.
  unfoldable pub send_or_lose : Bytes → Bool → Bytes → Link → Link
  send_or_lose payload fin reply l = elim o.lose_data_segments [
    | none ↦ emit (deliver_data o reply) l
    | some lost ↦
        let c = l.connection in
        let ordinal = l.tally.data_segments_sent + 1 in
        let entry : Sent = record { sequence = c.server_next; payload = payload; fin = fin } in
        let recorded = record c {
          sent_segments = some (or_default c.sent_segments [] ++ (entry ∷ []));
        } in
        let counted = record l.tally { data_segments_sent = ordinal } in
        if includes lost ordinal
        then emit (lost_frame reply) (record l {
          connection = record recorded {
            lost_sequences =
                if includes c.lost_sequences c.server_next
                then c.lost_sequences
                else c.lost_sequences ++ (c.server_next ∷ []);
          };
          tally = record counted { lost_data_segments = l.tally.lost_data_segments + 1 };
        })
        else emit (deliver_data o reply) (record l { connection = recorded; tally = counted })
  ]

  -- The duplicate and the early FIN that a scenario sends behind the data.
  unfoldable pub send_extras : ℕ → Bytes → Link → Link
  send_extras size reply l =
      let l1 = if o.duplicate_data then emit (deliver_data o reply) l else l in
      let c = l1.connection in
      if o.out_of_order_fin_after_data && not c.bad_fin_sent
      then emit
          (deliver_data o
            (data_frame o template c (add32 c.server_next (size + 1)) 0x11 c.advertised_window []))
          (record l1 { connection = record c { bad_fin_sent = true } })
      else l1

  -- The sequence space that the segment took, and the counters.
  unfoldable pub account : ℕ → Bool → ℕ → Link → Link
  account size fin burst l =
      let c = l.connection in
      let moved = record c {
        server_next = add32 c.server_next (size + (if fin then 1 else 0));
        fin_sent = c.fin_sent || fin;
      } in
      record l {
        connection = moved;
        tally = record l.tally {
          max_data_burst = max l.tally.max_data_burst burst;
          http_bytes_sent = l.tally.http_bytes_sent + (if is_http o.mode then size else 0);
          max_in_flight = max l.tally.max_in_flight (in_flight moved);
        };
      }

  -- The abort or the stall of a scenario; `true` where the loop ends by it.
  unfoldable pub cut_off : ℕ → Link → Bool × Link
  cut_off size l =
      let c = record l.connection { bytes_sent = l.connection.bytes_sent + size } in
      let reset = data_frame o template c c.server_next 0x04 0 [] in
      elim o.abort_after_bytes [
        | some threshold ↦
            if leb threshold c.bytes_sent && not c.aborted
            then (
              true,
              emit (deliver_data o reset) (record l { connection = record c { aborted = true } }),
            )
            else (false, record l { connection = c })
        | none ↦ elim o.stall_after_bytes [
          | some threshold ↦
              if leb threshold c.bytes_sent && not c.aborted
              then (true, record l { connection = record c { aborted = true; send_queue = [] } })
              else (false, record l { connection = c })
          | none ↦ (false, l)
        ]
      ]

  -- One segment goes out, with what the scenario puts around it, and is accounted for.
  abbrev pub put_segment : ℕ → Link → Link
  put_segment burst l =
      let size = segment_size o l.connection in
      let payload = take size l.connection.send_queue in
      let rest = drop size l.connection.send_queue in
      let l1 =
        send_out_of_order payload
          (record l { connection = record l.connection { send_queue = rest } }) in
      let c = l1.connection in
      let fin = carries_fin o c rest in
      let reply =
        data_frame o template c c.server_next (if fin then 0x19 else 0x18) c.advertised_window
          payload in
      let l2 = send_or_lose payload fin reply (send_corrupt payload reply l1) in
      account size fin burst (send_extras size reply l2)

  -- One round of the loop: a segment, and the end of the loop where the scenario cuts it off.
  unfoldable pub send_segment : ℕ → Link → Bool × Link
  unfolding send_out_of_order send_corrupt send_or_lose send_extras account cut_off
  send_segment burst l = cut_off (segment_size o l.connection) (put_segment burst l)

  -- The loop. Each round sends at least a byte, so the length of the queue is enough fuel.
  unfoldable pub drain_loop : ℕ → ℕ → Link → Link
  drain_loop zero burst l = l
  drain_loop (suc fuel) burst l =
      let (ends, l') = send_segment burst l in
      let rest = drain_loop fuel (burst + 1) l' in
      if is_nil l.connection.send_queue || available l.connection == 0
      then l
      else if ends
      then l'
      else rest

  -- `drainConnectionSendQueue`, with whether anything was sent.
  unfoldable pub drain : Link → Bool × Link
  unfolding drain_loop send_segment
  drain l = (
    not (is_nil l.connection.send_queue || available l.connection == 0),
    drain_loop (length l.connection.send_queue) 1 l,
  )
