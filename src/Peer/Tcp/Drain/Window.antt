-- ===== src/Peer/Tcp/Drain/Window.antt =====
-- How far `drainConnectionSendQueue` goes: up to the client's window, and no less.
use sprinter_3c509b.Base.{
  ℕ, zero, suc, ◌+◌, ◌-◌, ◌%◌, ◌≤◌, ◌<◌, ◌≡◌, refl, ◌∙◌, ap, sym, ap₂, Bool, true, false, ◌||◌, inl,
  inr, ◌⊎◌, Option, none, some, [], ◌∷◌, arith, min, max, ◌==◌, length, length-drop, drop, Bytes,
  or_nonzero, add32, sub32, u32, Bool-cases, if_cases,
}
use mathlib.Core.Path.{subst}
use sprinter_3c509b.Frame.Tcp.{Segment}
use sprinter_3c509b.Peer.Tcp.{Connection, Options, Link, in_flight}
use sprinter_3c509b.Peer.Tcp.Drain.{
  available, send_mss, segment_size, is_nil, send_segment, drain_loop, drain,
}
use sprinter_3c509b.Peer.Tcp.Drain.Step.{Step, send_segment-Step}

-- The sequence numbers have 32 bits and the window 16.
pub record InRange (c : Connection) : Type 0 where
  pub next : c.server_next < u32
  pub acked : c.server_acked < u32
  pub window : c.client_window < 65536

-- From `c`, the responder went on to `d` as far as the window lets it.
pub record Fills (c d : Connection) : Type 0 where
  pub window : d.client_window ≡ c.client_window
  pub bound : in_flight d ≤ max (c.client_window + 1) (in_flight c)
  pub stop : (d.send_queue ≡ []) ⊎ ((available d ≡ 0) ⊎ (d.aborted ≡ true))

in_flight-step :
    (next acked size f w : ℕ)
    → next < u32
    → acked < u32
    → w < 65536
    → sub32 next acked + size ≤ w
    → f ≤ 1
    → sub32 (add32 next (size + f)) acked ≤ w + 1
in_flight-step next acked size f w hn ha hw hs hf = omega arith

min-third : (m a n : ℕ) → min m (min a n) ≤ a
min-third m a n = omega arith

min-pos : (m a n : ℕ) → 1 ≤ m → 1 ≤ a → 1 ≤ n → 1 ≤ min m (min a n)
min-pos m a n h k l = omega arith

or_nonzero-pos : (v : Option ℕ) (d : ℕ) → 1 ≤ d → 1 ≤ or_nonzero v d
or_nonzero-pos none d h = h
or_nonzero-pos (some v) d h = ground arith

send_mss-pos : (o : Options) (c : Connection) → 1 ≤ send_mss o c
send_mss-pos o c = or_nonzero-pos o.response_chunk_size _ (
    both-pos (or_nonzero (some c.client_mss) 536) (or_nonzero o.max_send_mss 1460)
      (or_nonzero-pos (some c.client_mss) 536 (omega arith))
      (or_nonzero-pos o.max_send_mss 1460 (omega arith)))
  where
    both-pos : (a b : ℕ) → 1 ≤ a → 1 ≤ b → 1 ≤ min a b
    both-pos a b h k = omega arith

pub is_nil-length : (q : Bytes) → is_nil q ≡ false → 1 ≤ length q
is_nil-length [] h = cc
is_nil-length (x ∷ q) h = omega arith

is_nil-eq : (q : Bytes) → is_nil q ≡ true → q ≡ []
is_nil-eq [] h = refl
is_nil-eq (x ∷ q) h = cc

pub length-zero : (q : Bytes) → length q ≤ 0 → q ≡ []
length-zero [] h = refl
length-zero (x ∷ q) h = absurd (omega arith)

-- The test at the head of the loop.
pub idle_cases : (q : Bytes) (room : ℕ) → (is_nil q || room == 0) ≡ true → (q ≡ []) ⊎ (room ≡ 0)
idle_cases q room h = elim (Bool-cases (is_nil q)) [
  | inl e ↦ inl (is_nil-eq q e)
  | inr e ↦ inr (ground arith)
]

pub busy_cases :
    (q : Bytes) (room : ℕ) → (is_nil q || room == 0) ≡ false → (1 ≤ length q) × (1 ≤ room)
busy_cases q room h = elim (Bool-cases (is_nil q)) [
  | inl e ↦ absurd (ground arith)
  | inr e ↦ (is_nil-length q e, ground arith)
]

Step-bound :
    (o : Options) (c : Connection) (r : Bool × Link)
    → InRange c
    → 1 ≤ available c
    → Step c (segment_size o c) r
    → in_flight r.1.connection ≤ c.client_window + 1
Step-bound o c r v room s =
    let (f, small, next) = s.next in
    subst (λ n. n ≤ c.client_window + 1) (sym (ap₂ sub32 next s.acked))
      (in_flight-step c.server_next c.server_acked (segment_size o c) f c.client_window v.next
        v.acked v.window
        (room_for (in_flight c) c.client_window (segment_size o c) room
          (min-third (send_mss o c) (available c) (length c.send_queue)))
        small)
  where
    room_for : (n w size : ℕ) → 1 ≤ w - n → size ≤ w - n → n + size ≤ w
    room_for n w size h k = omega arith

pub Step-InRange :
    (c : Connection) (size : ℕ) (r : Bool × Link)
    → InRange c
    → Step c size r
    → InRange r.1.connection
Step-InRange c size r v s =
    let (f, small, next) = s.next in
    record {
      next = subst (λ n. n < u32) (sym next) (below (c.server_next + (size + f)));
      acked = subst (λ n. n < u32) (sym s.acked) v.acked;
      window = subst (λ n. n < 65536) (sym s.window) v.window;
    }
  where
    below : (n : ℕ) → n % u32 < u32
    below n = omega arith

pub shorter :
    (o : Options) (c : Connection) (rest : Bytes) (fuel : ℕ)
    → rest ≡ drop (segment_size o c) c.send_queue
    → 1 ≤ length c.send_queue
    → 1 ≤ available c
    → length c.send_queue ≤ suc fuel
    → length rest ≤ fuel
shorter o c rest fuel e queued room h =
    less (length rest) (length c.send_queue) (segment_size o c)
      (ap length e ∙ length-drop {0} (segment_size o c) c.send_queue)
      (min-pos (send_mss o c) (available c) (length c.send_queue) (send_mss-pos o c) room queued) h
  where
    less : (n m size : ℕ) → n ≡ m - size → 1 ≤ size → m ≤ suc fuel → n ≤ fuel
    less n m size e p h = omega arith

module _ (o : Options) (template : Segment) where
  Fills-here : (c : Connection) → (c.send_queue ≡ []) ⊎ (available c ≡ 0) → Fills c c
  Fills-here c (inl e) = record { window = refl; bound = omega arith; stop = inl e }
  Fills-here c (inr e) = record { window = refl; bound = omega arith; stop = inr (inl e) }

  Fills-ended :
      (c : Connection) (r : Bool × Link)
      → InRange c
      → 1 ≤ available c
      → Step c (segment_size o c) r
      → r.0 ≡ true
      → Fills c r.1.connection
  Fills-ended c r v room s e = record {
    window = s.window;
    bound = omega (arith, Step-bound o c r v room s);
    stop = inr (inr (s.ended e));
  }

  Fills-after :
      (c : Connection) (r : Bool × Link) (d : Connection)
      → InRange c
      → 1 ≤ available c
      → Step c (segment_size o c) r
      → Fills r.1.connection d
      → Fills c d
  Fills-after c r d v room s w = record {
    window = w.window ∙ s.window;
    bound = omega (arith, Step-bound o c r v room s, w.bound, s.window);
    stop = w.stop;
  }

  drain_loop-Fills :
      (fuel burst : ℕ) (l : Link)
      → InRange l.connection
      → length l.connection.send_queue ≤ fuel
      → Fills l.connection (drain_loop o template fuel burst l).connection
  unfolding drain_loop
  drain_loop-Fills zero burst l v h =
      Fills-here l.connection (inl (length-zero l.connection.send_queue h))
  drain_loop-Fills (suc fuel) burst l v h =
      let c = l.connection in
      let r = send_segment o template burst l in
      let s = send_segment-Step o template burst l in
      if_cases (λ (k : Link). Fills c k.connection) (is_nil c.send_queue || available c == 0)
        (λ e. Fills-here c (idle_cases c.send_queue (available c) e))
        (λ e.
          let (queued, room) = busy_cases c.send_queue (available c) e in
          if_cases (λ (k : Link). Fills c k.connection) r.0 (λ t. Fills-ended c r v room s t)
            (λ t. Fills-after c r _ v room s (
              drain_loop-Fills fuel (burst + 1) r.1 (Step-InRange c (segment_size o c) r v s)
                (shorter o c r.1.connection.send_queue fuel (s.going t).0 queued room h))))

  -- `drainConnectionSendQueue` stops only where nothing is left to send, the client's window is
  -- full, or the connection was cut off; it never puts more than the window and one FIN in flight,
  -- unless more was in flight already. The sequence numbers have 32 bits and the window 16.
  pub drain-Fills :
      (l : Link) → InRange l.connection → Fills l.connection (drain o template l).1.connection
  unfolding drain
  drain-Fills l v = drain_loop-Fills (length l.connection.send_queue) 1 l v (omega arith)
