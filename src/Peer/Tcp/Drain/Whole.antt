-- ===== src/Peer/Tcp/Drain/Whole.antt =====
-- A queue that the client's window has room for goes out whole.
use sprinter_3c509b.Base.{
  ℕ, zero, suc, ◌+◌, ◌-◌, ◌≤◌, ◌<◌, ◌≡◌, refl, sym, ap, ◌∙◌, Bool, true, false, ◌||◌, [], ◌++◌,
  append-nil, min, ◌==◌, if◌then◌else◌, inl, inr, if_cases, Bool-cases, length, length-drop, drop,
  add32, sub32, u32, arith, List,
}
use mathlib.Core.Path.{subst}
use sprinter_3c509b.Card.{Reply}
use sprinter_3c509b.Frame.Tcp.{Segment}
use sprinter_3c509b.Peer.Tcp.{Connection, Options, Link, in_flight}
use sprinter_3c509b.Peer.Tcp.Drain.{
  is_nil, available, send_mss, segment_size, carries_fin, account, send_segment, drain_loop, drain,
}
use sprinter_3c509b.Peer.Tcp.Drain.Quiet.{
  IsQuiet, cut_queue, after_round, quiet_round, drain_loop-nil, carries_fin-last,
}
use sprinter_3c509b.Peer.Tcp.Drain.Client.{collect, Fits}
use sprinter_3c509b.Peer.Tcp.Drain.Deliver.{IsSound, drain_rest, drain-Delivers}
use sprinter_3c509b.Peer.Tcp.Drain.Window.{shorter, busy_cases, length-zero, idle_cases}

-- The window has room for all that waits.
pub record HasRoom (c : Connection) : Type 0 where
  pub next : c.server_next < u32
  pub acked : c.server_acked < u32
  pub window : c.client_window < 65536
  pub room : in_flight c + length c.send_queue ≤ c.client_window

left_room :
    (next acked size n w left : ℕ)
    → next < u32
    → acked < u32
    → w < 65536
    → sub32 next acked + n ≤ w
    → size ≤ n
    → left ≡ n - size
    → sub32 (add32 next (size + 0)) acked + left ≤ w
left_room next acked size n w left hn ha hw h k e = omega arith

min-last : (m a n : ℕ) → min m (min a n) ≤ n
min-last m a n = omega arith

no_more : (b : Bool) → b ≡ false → ◌≡◌ {A = ℕ} (if b then 1 else 0) 0
no_more b e = rw e refl

-- Where the window has room, an idle connection has nothing to send.
idle_nil :
    (c : Connection)
    → HasRoom c
    → is_nil c.send_queue || available c == 0 ≡ true
    → c.send_queue ≡ []
idle_nil c v h = elim (idle_cases c.send_queue (available c) h) [
  | inl e ↦ e
  | inr e ↦ length-zero c.send_queue (omega (arith, v.room))
]

module _ (o : Options) (template : Segment) (q : IsQuiet o) where
  after_round-HasRoom :
      (burst : ℕ) (l : Link)
      → carries_fin o
          (cut_queue o template l.connection)
          (cut_queue o template l.connection).send_queue
        ≡ false
      → HasRoom l.connection
      → HasRoom (after_round o template burst l).connection
  unfolding account
  after_round-HasRoom burst l e v = record {
    next = omega arith;
    acked = v.acked;
    window = v.window;
    room =
        let c = l.connection in
        let fin = carries_fin o (cut_queue o template c) (cut_queue o template c).send_queue in
        subst
          (λ f.
            sub32 (add32 c.server_next (segment_size o c + f)) c.server_acked
              + length (drop (segment_size o c) c.send_queue)
            ≤ c.client_window)
          (sym (no_more fin e))
          (left_room c.server_next c.server_acked (segment_size o c) (length c.send_queue)
            c.client_window (length (drop (segment_size o c) c.send_queue)) v.next v.acked v.window
            v.room (min-last (send_mss o c) (available c) (length c.send_queue))
            (length-drop {0} (segment_size o c) c.send_queue));
  }

  drain_loop-nil_queue :
      (fuel burst : ℕ) (l : Link)
      → HasRoom l.connection
      → length l.connection.send_queue ≤ fuel
      → (drain_loop o template fuel burst l).connection.send_queue ≡ []
  unfolding drain_loop account
  drain_loop-nil_queue zero burst l v h = length-zero l.connection.send_queue h
  drain_loop-nil_queue (suc fuel) burst l v h =
      let c = l.connection in
      let left = (cut_queue o template c).send_queue in
      let next = after_round o template burst l in
      let goes_on : drain_rest o template fuel burst (send_segment o template burst l)
          ≡ drain_loop o template fuel (burst + 1) next =
        ap (drain_rest o template fuel burst) (quiet_round o template q burst l) in
      if_cases (λ (k : Link). k.connection.send_queue ≡ [])
        (is_nil c.send_queue || available c == 0) (λ e. idle_nil c v e)
        (λ e.
          let (queued, room) = busy_cases c.send_queue (available c) e in
          let small = shorter o c left fuel refl queued room h in
          ap (λ (k : Link). k.connection.send_queue) goes_on
          ∙ elim (Bool-cases (carries_fin o (cut_queue o template c) left)) [
            | inl t ↦
                let last = carries_fin-last o template (cut_queue o template c) left q t in
                ap (λ (k : Link). k.connection.send_queue)
                  (drain_loop-nil o template fuel (burst + 1) next last)
                ∙ last
            | inr t ↦
                drain_loop-nil_queue fuel (burst + 1) next (after_round-HasRoom burst l t v) small
          ])

  -- Where the client's window has room for all that waits, `drainConnectionSendQueue` empties the
  -- queue, and a client that waits for the connection's next number collects all its bytes from the
  -- frames that are added to the answers and not lost. The scenario asks for no fault, the addresses
  -- and ports fit their fields, and a segment has at most 1460 bytes.
  pub drain-whole :
      (l : Link)
      → Fits o template
      → IsSound o l.connection
      → HasRoom l.connection
      → let m = (drain o template l).1 in
        (frames : List Reply) × (m.out ≡ l.out ++ frames)
        × (m.connection.send_queue ≡ [])
        × (collect frames l.connection.server_next ≡ l.connection.send_queue)
  unfolding drain
  drain-whole l f v room =
      let queue = l.connection.send_queue in
      let d = drain-Delivers o template f q l v in
      let empty = drain_loop-nil_queue (length queue) 1 l room (omega arith) in
      (
        d.frames,
        d.out,
        empty,
        sym (append-nil (collect d.frames l.connection.server_next))
            ∙ (ap (λ t. collect d.frames l.connection.server_next ++ t) (sym empty) ∙ d.bytes),
      )
