-- ===== src/Peer/Tcp/Drain/Deliver.antt =====
-- What the client receives of `drainConnectionSendQueue`: the bytes of the queue, in order.
use sprinter_3c509b.Base.{
  ℕ, zero, suc, ◌+◌, ◌≤◌, ◌<◌, ◌≡◌, refl, sym, ap, ap₂, ◌∙◌, Bool, true, false, ◌||◌, List, [], ◌∷◌,
  ◌++◌, append_assoc, append-nil, min, ◌==◌, if◌then◌else◌, inl, inr, if_cases, Bool-cases, length,
  length-take, take, drop, take-append-drop, Bytes, AllBytes, AllBytes-take, AllBytes-drop, add32,
  u32, arith,
}
use sprinter_3c509b.Peer.Tcp.Drain.Client.{take_in, collect, Fits, data_frame-read}
use mathlib.Core.Path.{subst}
use sprinter_3c509b.Card.{Reply}
use sprinter_3c509b.Frame.Tcp.{Segment, tcp_segment}
use sprinter_3c509b.Peer.Tcp.{Connection, Options, Link, deliver_data}
use sprinter_3c509b.Peer.Tcp.Drain.{
  is_nil, available, send_mss, segment_size, carries_fin, data_frame, account, send_segment,
  drain_loop, drain,
}
use sprinter_3c509b.Peer.Tcp.Drain.Quiet.{
  IsQuiet, cut_queue, after_round, quiet_round, drain_loop-nil, carries_fin-last,
}

-- The connection: numbers of 32 bits, a window of 16, segments of at most 1460 bytes, and bytes.
pub record IsSound (o : Options) (c : Connection) : Type 0 where
  pub next : c.server_next < u32
  pub window : c.advertised_window < 65536
  pub mss : send_mss o c ≤ 1460
  pub queue : AllBytes c.send_queue

pub record Delivers (l m : Link) : Type 0 where
  pub frames : List Reply
  pub out : m.out ≡ l.out ++ frames
  pub bytes :
      collect frames l.connection.server_next ++ m.connection.send_queue ≡ l.connection.send_queue

Delivers-refl : (l : Link) → Delivers l l
Delivers-refl l = record { frames = []; out = sym (append-nil l.out); bytes = refl }

module _ (o : Options) (template : Segment) where
  pub after_round-IsSound :
      (burst : ℕ) (l : Link)
      → IsSound o l.connection
      → IsSound o (after_round o template burst l).connection
  unfolding account
  after_round-IsSound burst l v = record {
    next = omega arith;
    window = v.window;
    mss = v.mss;
    queue = AllBytes-drop (segment_size o l.connection) l.connection.send_queue v.queue;
  }

  -- What the loop does behind a round.
  abbrev pub drain_rest : ℕ → ℕ → Bool × Link → Link
  drain_rest fuel burst r = if r.0 then r.1 else drain_loop o template fuel (burst + 1) r.1

  plus_fin : (size : ℕ) (b : Bool) → b ≡ false → size + (if b then 1 else 0) ≡ size
  plus_fin size b e = rw e (omega arith)

  min-queue : (m a n : ℕ) → min (min m (min a n)) n ≡ min m (min a n)
  min-queue m a n = omega arith

  small_size : (m a n : ℕ) → m ≤ 1460 → min m (min a n) ≤ 1460
  small_size m a n h = omega arith

  module _ (f : Fits o template) (q : IsQuiet o) where
    -- The client collects the segment of a round, and then what follows.
    round-Delivers :
        (burst : ℕ) (l m : Link)
        → IsSound o l.connection
        → (carries_fin o
                (cut_queue o template l.connection)
                (cut_queue o template l.connection).send_queue
              ≡ true
            → m ≡ after_round o template burst l)
        → Delivers (after_round o template burst l) m
        → Delivers l m
    unfolding account
    round-Delivers burst l m v last d = elim (Bool-cases fin) [
      | inl e ↦ record {
        frames = deliver_data o reply ∷ [];
        out = ap (λ (k : Link). k.out) (last e);
        bytes =
            ap₂ (λ (a b : Bytes). a ++ b) (collected [])
              (ap (λ (k : Link). k.connection.send_queue) (last e))
            ∙ (ap (λ t. t ++ left) (append-nil payload) ∙ take-append-drop size c.send_queue);
      }
      | inr e ↦ record {
        frames = deliver_data o reply ∷ d.frames;
        out = d.out ∙ append_assoc l.out (deliver_data o reply ∷ []) d.frames;
        bytes =
            ap (λ t. t ++ m.connection.send_queue) (collected d.frames)
            ∙ (append_assoc payload _ m.connection.send_queue
                ∙ (ap
                      (λ n.
                        payload
                        ++ (collect d.frames (add32 c.server_next n) ++ m.connection.send_queue))
                      (moved e)
                    ∙ (ap (λ t. payload ++ t) d.bytes ∙ take-append-drop size c.send_queue)));
      }
    ]
      where
        c : Connection
        c = l.connection

        size : ℕ
        size = segment_size o c

        payload : Bytes
        payload = take size c.send_queue

        left : Bytes
        left = drop size c.send_queue

        c' : Connection
        c' = record c { send_queue = left }

        fin : Bool
        fin = carries_fin o c' left

        reply : Bytes
        reply =
            data_frame o template c' c'.server_next (if fin then 0x19 else 0x18)
              c'.advertised_window payload

        read :
            take_in (tcp_segment reply) c.server_next
            ≡ (add32 c.server_next (length payload), payload)
        read =
            data_frame-read o template c' fin payload f v.next v.window
              (AllBytes-take size c.send_queue v.queue)
              (omega (
                arith,
                length-take {0} size c.send_queue,
                small_size (send_mss o c) (available c) (length c.send_queue) v.mss,
              ))

        collected :
            (frames : List Reply)
            → collect (deliver_data o reply ∷ frames) c.server_next
              ≡ payload ++ collect frames (add32 c.server_next (length payload))
        collected frames = ap (λ (r : ℕ × Bytes). r.1 ++ collect frames r.0) read

        all_sent : length payload ≡ size
        all_sent = omega (
          arith,
          length-take {0} size c.send_queue,
          min-queue (send_mss o c) (available c) (length c.send_queue),
        )

        moved : fin ≡ false → length payload ≡ size + (if fin then 1 else 0)
        moved e = all_sent ∙ sym (plus_fin size fin e)

    drain_loop-Delivers :
        (fuel burst : ℕ) (l : Link)
        → IsSound o l.connection
        → Delivers l (drain_loop o template fuel burst l)
    unfolding drain_loop account
    drain_loop-Delivers zero burst l v = Delivers-refl l
    drain_loop-Delivers (suc fuel) burst l v =
        let next = after_round o template burst l in
        let goes_on : drain_rest fuel burst (send_segment o template burst l)
            ≡ drain_loop o template fuel (burst + 1) next =
          ap (drain_rest fuel burst) (quiet_round o template q burst l) in
        if_cases (Delivers l) (is_nil l.connection.send_queue || available l.connection == 0)
          (λ _. Delivers-refl l)
          (λ _. subst (Delivers l) (sym goes_on) (
            round-Delivers burst l (drain_loop o template fuel (burst + 1) next) v
              (λ e. drain_loop-nil o template fuel (burst + 1) next (
                carries_fin-last o template (cut_queue o template l.connection)
                  (cut_queue o template l.connection).send_queue q e))
              (drain_loop-Delivers fuel (burst + 1) next (after_round-IsSound burst l v))))

    -- A client that waits for the connection's next number and takes in the frames that
    -- `drainConnectionSendQueue` adds to the answers has, in order, the bytes that left the queue.
    -- The scenario asks for no fault, the addresses and ports fit their fields, and a segment has at
    -- most 1460 bytes.
    pub drain-Delivers : (l : Link) → IsSound o l.connection → Delivers l (drain o template l).1
    unfolding drain
    drain-Delivers l v = drain_loop-Delivers (length l.connection.send_queue) 1 l v
