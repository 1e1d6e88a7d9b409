-- ===== src/Peer/Tcp/Stages/Range.antt =====
-- The stages of `respondTcp` keep the sequence numbers and the window in their ranges.
use sprinter_3c509b.Base.{
  ℕ, zero, suc, ◌+◌, ◌%◌, ◌<◌, ◌≡◌, refl, sym, Bool, true, false, not, ◌&&◌, ◌||◌, Option, none,
  some, List, ◌++◌, arith, length, leb, ◌==◌, if◌then◌else◌, or_nonzero, add32, sub32, u32, if_both,
}
use sprinter_3c509b.Peer.Tcp.Recover.Range.{Sound, keeps, recover_loss-Sound}
use mathlib.Core.Path.{subst}
use sprinter_3c509b.Frame.Tcp.{Segment}
use sprinter_3c509b.Peer.Tcp.{Connection, Options, Link, Sent}
use sprinter_3c509b.Peer.Tcp.Drain.{
  available, segment_size, is_nil, is_http, send_segment, drain_loop, drain,
}
use sprinter_3c509b.Peer.Tcp.Drain.Step.{send_segment-Step}
use sprinter_3c509b.Peer.Tcp.Drain.Window.{InRange, Step-InRange}
use sprinter_3c509b.Peer.Tcp.Stages.{
  has, has_blank_line, ◌and_then◌, queue, acknowledge, note_window, take_ack, recovered, note_ack,
  establish, answer_probe, serve, take_data, receive, close, flush, on_connection,
}

-- The numbers of a segment have the widths of their fields.
pub record SegmentInRange (s : Segment) : Type 0 where
  pub sequence : s.sequence < u32
  pub acknowledgement : s.acknowledgement < u32
  pub window : s.window < 65536

-- The connection of a stage's result is in range.
record SoundStage (r : Bool × Link) : Type 0 where
  in_range : InRange r.1.connection

-- The server's next number may move on.
moves :
    {l m : Link}
    → m.connection.server_next < u32
    → m.connection.server_acked ≡ l.connection.server_acked
    → m.connection.client_window ≡ l.connection.client_window
    → Sound l
    → Sound m
moves next acked window v = record {
  in_range = record {
    next = next;
    acked = subst (λ n. n < u32) (sym acked) v.in_range.acked;
    window = subst (λ n. n < 65536) (sym window) v.in_range.window;
  };
}

staged : {b : Bool} {l : Link} → Sound l → SoundStage (b, l)
staged v = record { in_range = v.in_range }

pub add32-below : (a b : ℕ) → add32 a b < u32
add32-below a b = below (a + b)
  where
    below : (n : ℕ) → n % u32 < u32
    below n = omega arith

and_then-Sound :
    (r : Bool × Link) (next : Link → Bool × Link)
    → SoundStage r
    → ((l : Link) → Sound l → SoundStage (next l))
    → SoundStage (r and_then next)
and_then-Sound r next v h = if_both SoundStage r.0 v (h r.1 (record { in_range = v.in_range }))

module _ (o : Options) (s : Segment) where
  drain_loop-Sound : (fuel burst : ℕ) (l : Link) → Sound l → Sound (drain_loop o s fuel burst l)
  unfolding drain_loop
  drain_loop-Sound zero burst l v = v
  drain_loop-Sound (suc fuel) burst l v =
      let r = send_segment o s burst l in
      let w : Sound r.1 = record {
        in_range =
            Step-InRange l.connection (segment_size o l.connection) r v.in_range
              (send_segment-Step o s burst l);
      } in
      if_both Sound (is_nil l.connection.send_queue || available l.connection == 0) v
        (if_both Sound r.0 w (drain_loop-Sound fuel (burst + 1) r.1 w))

module _ (o : Options) (s : Segment) (fits : SegmentInRange s) where
  note_window-Sound : (l : Link) → Sound l → Sound (note_window o s l)
  unfolding note_window
  note_window-Sound l v = record {
    in_range = record { next = v.in_range.next; acked = v.in_range.acked; window = fits.window };
  }

  take_ack-InRange : (c : Connection) → InRange c → InRange (take_ack o s c)
  unfolding take_ack
  take_ack-InRange c v =
      if_both InRange
        (leb (sub32 s.acknowledgement c.server_acked) (sub32 c.server_next c.server_acked))
        (record { next = v.next; acked = fits.acknowledgement; window = v.window }) v

  recovered-Sound :
      (a w : ℕ) (l : Link) (sent : Option (List Sent)) → Sound l → Sound (recovered o s a w l sent)
  recovered-Sound a w l none v = v
  recovered-Sound a w l (some sent) v = recover_loss-Sound o s a w sent l v

  note_ack-Sound : (w : ℕ) (l : Link) → Sound l → Sound (note_ack o s w l)
  unfolding note_ack
  note_ack-Sound w l v = if_both Sound (not (has 0x10 s.flags)) v (
      recovered-Sound l.connection.server_acked w
        (record l { connection = take_ack o s l.connection }) l.connection.sent_segments
        (record { in_range = take_ack-InRange l.connection v.in_range }))

module _ (o : Options) (s : Segment) where
  establish-Sound : (l : Link) → Sound l → SoundStage (establish o s l)
  unfolding establish
  establish-Sound l v =
      if_both SoundStage
        (not l.connection.established
          && is_nil s.payload
          && not (has 1 s.flags)
          && s.acknowledgement == l.connection.server_next)
        (staged (keeps refl refl refl v)) (staged v)

  answer_probe-Sound : (l : Link) → Sound l → SoundStage (answer_probe o s l)
  unfolding answer_probe
  answer_probe-Sound l v =
      if_both SoundStage
        (not (is_nil s.payload)
          && not (o.zero_window_probes == 0)
          && s.sequence == sub32 l.connection.client_next 1)
        (staged (
          if_both (λ (c : Connection). Sound (acknowledge o s (record l { connection = c })))
            (leb o.zero_window_probes (l.connection.probes + 1)) (keeps refl refl refl v)
            (keeps refl refl refl v)))
        (staged v)

  serve-Sound : (l : Link) → Sound l → Sound (serve o s l)
  unfolding serve
  serve-Sound l v = if_both Sound (not (is_http o.mode)) (keeps refl refl refl v) (
      if_both Sound
        (not l.connection.http_ready && has_blank_line (l.connection.http_request ++ s.payload))
        (keeps refl refl refl v) (keeps refl refl refl v))

  take_data-Sound : (l : Link) → Sound l → SoundStage (take_data o s l)
  unfolding take_data
  take_data-Sound l v = after _ (serve-Sound _ (keeps refl refl refl v))
    where
      after :
          (l1 : Link)
          → Sound l1
          → SoundStage (
              if leb l.tally.data_count o.drop_data_responses
              then (true, l1)
              else if o.out_of_sequence_rst_before_data && not l1.connection.bad_rst_sent
              then (
                false,
                queue o s
                    (add32 l1.connection.server_next 1)
                    0x14
                    0
                    (record l1 { connection = record l1.connection { bad_rst_sent = true } }),
              )
              else (false, l1))
      after l1 w = if_both SoundStage (leb l.tally.data_count o.drop_data_responses) (staged w) (
          if_both SoundStage (o.out_of_sequence_rst_before_data && not l1.connection.bad_rst_sent)
            (staged (keeps refl refl refl w)) (staged w))

  receive-Sound : (l : Link) → Sound l → SoundStage (receive o s l)
  unfolding receive
  receive-Sound l v = if_both SoundStage (is_nil s.payload) (staged v) (
      if_both SoundStage
        (o.reset_on_data
          && (o.reset_always || l.tally.data_count + 1 == or_nonzero o.reset_on_data_at 1))
        (staged (keeps refl refl refl v))
        (if_both SoundStage (not (s.sequence == l.connection.client_next))
          (staged (keeps refl refl refl v)) (take_data-Sound _ (keeps refl refl refl v))))

  close-Sound : (l : Link) → Sound l → SoundStage (close o s l)
  unfolding close
  close-Sound l v = if_both SoundStage (not (has 1 s.flags)) (staged v) (
      if_both SoundStage (o.ack_only_close && not l.connection.fin_sent)
        (staged (keeps refl refl refl v))
        (if_both SoundStage (o.split_close && not l.connection.fin_sent)
          (staged (moves (add32-below _ 1) refl refl v))
          (if_both SoundStage (l.connection.fin_sent) (staged (keeps refl refl refl v))
            (staged (moves (add32-below _ 1) refl refl v)))))

  flush-Sound : (l : Link) → Sound l → SoundStage (flush o s l)
  unfolding flush drain
  flush-Sound l v =
      let w = drain_loop-Sound o s (length l.connection.send_queue) 1 l v in
      if_both SoundStage (not (drain o s l).0 && not (is_nil s.payload))
        (staged (keeps refl refl refl w)) (staged w)

module _ (o : Options) (s : Segment) (fits : SegmentInRange s) where
  -- A segment on a connection in range leaves it in range.
  pub on_connection-Sound : (l : Link) → Sound l → Sound (on_connection o s l)
  unfolding on_connection
  on_connection-Sound l v =
      let w = note_ack-Sound o s fits _ _ (note_window-Sound o s fits l v) in
      record {
        in_range =
            (and_then-Sound _ (flush o s)
              (and_then-Sound _ (close o s)
                (and_then-Sound _ (receive o s)
                  (and_then-Sound _ (answer_probe o s) (establish-Sound o s _ w)
                    (answer_probe-Sound o s))
                  (receive-Sound o s))
                (close-Sound o s))
              (flush-Sound o s)).in_range;
      }
