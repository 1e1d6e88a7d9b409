-- ===== src/Peer/Tcp/Stages/Echo.antt =====
-- The stages of `respondTcp` at an echo server that receives data in order.
use sprinter_3c509b.Base.{
  ℕ, ◌+◌, ◌-◌, ◌≤◌, ◌<◌, ◌≡◌, refl, ap, ◌∙◌, Bool, true, false, not, ◌&&◌, ◌||◌, [], ◌++◌, ◌==◌,
  if_true, if_false, le→leb, leb, none, length, AllBytes, sub32, u32, arith, or_nonzero,
}
use sprinter_3c509b.Frame.Tcp.{Segment}
use sprinter_3c509b.Peer.Tcp.{Connection, Options, echo, Link}
use sprinter_3c509b.Peer.Tcp.Drain.{is_nil, is_http, available, drain, send_mss}
use sprinter_3c509b.Peer.Tcp.Drain.Quiet.{IsQuiet}
use sprinter_3c509b.Peer.Tcp.Stages.{
  has, ◌and_then◌, note_window, take_ack, recovered, note_ack, opens, establish, answer_probe,
  serve, accept_data, take_data, receive, close, flush,
}

-- The echo server of a scenario without faults.
pub record IsEcho (o : Options) : Type 0 where
  pub quiet : IsQuiet o
  pub mode : o.mode ≡ echo
  pub no_drop : o.drop ≡ 0
  pub no_probes : o.zero_window_probes ≡ 0
  pub no_reset : o.reset_on_data ≡ false
  pub answers : o.drop_data_responses ≡ 0
  pub no_bad_rst : o.out_of_sequence_rst_before_data ≡ false

-- Data in order, which acknowledges all that the server has sent, and has room for its echo.
pub record IsNext (o : Options) (c : Connection) (segment : Segment) : Type 0 where
  pub no_rst : has 4 segment.flags ≡ false
  pub no_syn : has 2 segment.flags ≡ false
  pub no_fin : has 1 segment.flags ≡ false
  pub ack : has 0x10 segment.flags ≡ true
  pub some_data : is_nil segment.payload ≡ false
  pub bytes : AllBytes segment.payload
  pub sequence : segment.sequence ≡ c.client_next
  pub acknowledgement : segment.acknowledgement ≡ c.server_next
  pub window : segment.window < 65536
  pub room : length segment.payload ≤ segment.window

-- A connection that waits for data.
pub record IsWaiting (o : Options) (c : Connection) : Type 0 where
  pub established : c.established ≡ true
  pub alive : c.aborted ≡ false
  pub nothing_sent : c.sent_segments ≡ none
  pub empty : c.send_queue ≡ []
  pub next : c.server_next < u32
  pub window : c.advertised_window < 65536
  pub mss : send_mss o c ≤ 1460

same-leb : (a b n : ℕ) → a ≡ b → leb (sub32 a n) (sub32 b n) ≡ true
same-leb a b n e = le→leb (sub32 a n) (sub32 b n) (le_of_eq (ap (λ x. sub32 x n) e))
  where
    le_of_eq : {x y : ℕ} → x ≡ y → x ≤ y
    le_of_eq h = omega arith

second_false : (a b c : Bool) → b ≡ false → a && b && c ≡ false
second_false a b c h = ground arith

pub no_drops : (n m : ℕ) → m ≡ 0 → leb (n + 1) m ≡ false
no_drops n m h = ground arith

same_number : (a b : ℕ) → a ≡ b → not (a == b) ≡ false
same_number a b h = ground arith

pub none_out : (next ack : ℕ) → ack ≡ next → sub32 next ack ≡ 0
none_out next ack h = omega arith

pub room_left : (w next ack n : ℕ) → ack ≡ next → 1 ≤ n → n ≤ w → (w - sub32 next ack) == 0 ≡ false
room_left w next ack n e h k = ground (arith, none_out next ack)

module _ (o : Options) (segment : Segment) where
  pub passed :
      (r : Bool × Link) (l : Link) (next : Link → Bool × Link)
      → r ≡ (false, l)
      → (r and_then next) ≡ next l
  passed r l next e = ap (λ r. r and_then next) e

  -- The link with the window and the acknowledgement noted.
  abbrev pub noted_link : Link → Link
  noted_link l =
      let l1 = note_window o segment l in
      record l1 { connection = record l1.connection { server_acked = segment.acknowledgement } }

  pub note_all :
      (n : ℕ) (l : Link)
      → has 0x10 segment.flags ≡ true
      → segment.acknowledgement ≡ l.connection.server_next
      → l.connection.sent_segments ≡ none
      → note_ack o segment n (note_window o segment l) ≡ noted_link l
  unfolding note_ack note_window take_ack
  note_all n l ack all plain =
      let l1 = note_window o segment l in
      let c = l1.connection in
      let acked = record l1 { connection = take_ack o segment c } in
      if_false (not (has 0x10 segment.flags)) l1
        (recovered o segment c.server_acked n acked c.sent_segments) (ap not ack)
      ∙ (ap (recovered o segment c.server_acked n acked) plain
          ∙ ap (λ (k : Connection). record l1 { connection = k })
              (if_true
                (leb (sub32 segment.acknowledgement c.server_acked)
                  (sub32 c.server_next c.server_acked))
                (record c { server_acked = segment.acknowledgement }) c
                (same-leb segment.acknowledgement c.server_next c.server_acked all)))

  pub establish_again :
      (l : Link) → l.connection.established ≡ true → establish o segment l ≡ (false, l)
  unfolding establish
  establish_again l e =
      let c = l.connection in
      if_false (opens o segment c)
        (is_nil c.send_queue, record l { connection = record c { established = true } }) (false, l)
        (ap
          (λ b.
            not b
            && is_nil segment.payload
            && not (has 1 segment.flags)
            && segment.acknowledgement == c.server_next)
          e)

  pub no_probe : (l : Link) → o.zero_window_probes ≡ 0 → answer_probe o segment l ≡ (false, l)
  unfolding answer_probe
  no_probe l e =
      if_false
        (not (is_nil segment.payload)
          && not (o.zero_window_probes == 0)
          && segment.sequence == sub32 l.connection.client_next 1)
        _ (false, l)
        (second_false (not (is_nil segment.payload)) (not (o.zero_window_probes == 0)) _
          (ap (λ n. not (n == 0)) e))

  abbrev pub taken_link : Link → Link
  taken_link l =
      let l1 = record l { tally = record l.tally { data_count = l.tally.data_count + 1 } } in
      let l2 = accept_data o segment l1 in
      record l2 {
        connection = record l2.connection {
          send_queue = l2.connection.send_queue ++ segment.payload;
        };
      }

  serve_echo :
      (l : Link)
      → IsEcho o
      → serve o segment l ≡ record l {
        connection = record l.connection {
          send_queue = l.connection.send_queue ++ segment.payload;
        };
      }
  unfolding serve
  serve_echo l v = if_true (not (is_http o.mode)) _ _ (ap (λ m. not (is_http m)) v.mode)

  take_echo :
      (l : Link) (n : ℕ)
      → IsEcho o
      → l.tally.data_count ≡ n + 1
      → take_data o segment l ≡ (
        false,
        record (accept_data o segment l) {
          connection = record (accept_data o segment l).connection {
            send_queue = l.connection.send_queue ++ segment.payload;
          };
        },
      )
  unfolding take_data
  take_echo l n v count =
      let l1 = serve o segment (accept_data o segment l) in
      let bad_rst = not l1.connection.bad_rst_sent in
      if_false (leb l.tally.data_count o.drop_data_responses) (true, l1) _
        (ap (λ k. leb k o.drop_data_responses) count ∙ no_drops n o.drop_data_responses v.answers)
      ∙ (if_false (o.out_of_sequence_rst_before_data && bad_rst) _ (false, l1)
            (ap (λ b. b && bad_rst) v.no_bad_rst)
          ∙ ap (λ (k : Link). (false, k)) (serve_echo (accept_data o segment l) v))

  pub receive_data :
      (l : Link)
      → IsEcho o
      → is_nil segment.payload ≡ false
      → segment.sequence ≡ l.connection.client_next
      → receive o segment l ≡ (false, taken_link l)
  unfolding receive take_data serve
  receive_data l v some_data next =
      let l1 = record l { tally = record l.tally { data_count = l.tally.data_count + 1 } } in
      if_false (is_nil segment.payload) (false, l) _ some_data
      ∙ (if_false
            (o.reset_on_data
              && (o.reset_always || l1.tally.data_count == or_nonzero o.reset_on_data_at 1))
            _ _
            (ap
              (λ b. b && (o.reset_always || l1.tally.data_count == or_nonzero o.reset_on_data_at 1))
              v.no_reset)
          ∙ (if_false (not (segment.sequence == l.connection.client_next)) _
                (take_data o segment l1)
                (same_number segment.sequence l.connection.client_next next)
              ∙ take_echo l1 l.tally.data_count v refl))

  pub close_none : (l : Link) → has 1 segment.flags ≡ false → close o segment l ≡ (false, l)
  unfolding close
  close_none l e = if_true (not (has 1 segment.flags)) (false, l) _ (ap not e)

  pub flush_whole :
      (l : Link)
      → is_nil l.connection.send_queue || available l.connection == 0 ≡ false
      → flush o segment l ≡ (true, (drain o segment l).1)
  unfolding flush drain
  flush_whole l e =
      let idle = is_nil l.connection.send_queue || available l.connection == 0 in
      if_false (not (not idle) && not (is_nil segment.payload)) _ (true, (drain o segment l).1)
        (ap (λ b. not (not b) && not (is_nil segment.payload)) e)
