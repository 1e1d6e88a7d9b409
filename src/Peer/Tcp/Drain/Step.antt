-- ===== src/Peer/Tcp/Drain/Step.antt =====
-- What one round of `drainConnectionSendQueue` does to the connection.
use sprinter_3c509b.Base.{
  ℕ, ◌+◌, ◌≤◌, ◌≡◌, refl, ◌∙◌, ap, Bool, true, false, not, ◌&&◌, ◌||◌, inl, inr, [], arith, leb,
  if◌then◌else◌, drop, Bytes, add32, if_both, Bool-cases, Option-cases,
}
use sprinter_3c509b.Frame.Tcp.{Segment}
use sprinter_3c509b.Peer.Tcp.{Connection, Options, Link, emit, deliver_data}
use sprinter_3c509b.Peer.Tcp.Drain.{
  data_frame, segment_size, is_nil, includes, send_out_of_order, send_corrupt, send_or_lose,
  send_extras, account, cut_off, send_segment,
}

-- Two states of a connection with the same window, queue and sequence numbers.
pub record Same (c d : Connection) : Type 0 where
  pub next : d.server_next ≡ c.server_next
  pub acked : d.server_acked ≡ c.server_acked
  pub window : d.client_window ≡ c.client_window
  pub queue : d.send_queue ≡ c.send_queue
  pub mss : d.client_mss ≡ c.client_mss

pub Same-refl : (c : Connection) → Same c c
Same-refl c = record { next = refl; acked = refl; window = refl; queue = refl; mss = refl }

Same-trans : {c d e : Connection} → Same c d → Same d e → Same c e
Same-trans s t = record {
  next = t.next ∙ s.next;
  acked = t.acked ∙ s.acked;
  window = t.window ∙ s.window;
  queue = t.queue ∙ s.queue;
  mss = t.mss ∙ s.mss;
}

-- What the end of a round does to the connection.
pub record Cut (c : Connection) (r : Bool × Link) : Type 0 where
  pub next : r.1.connection.server_next ≡ c.server_next
  pub acked : r.1.connection.server_acked ≡ c.server_acked
  pub window : r.1.connection.client_window ≡ c.client_window
  pub going :
      r.0 ≡ false
      → (r.1.connection.send_queue ≡ c.send_queue) × (r.1.connection.client_mss ≡ c.client_mss)
  pub ended : r.0 ≡ true → r.1.connection.aborted ≡ true

module _ (o : Options) (template : Segment) where
  send_out_of_order-Same :
      (payload : Bytes) (l : Link)
      → Same l.connection (send_out_of_order o template payload l).connection
  unfolding send_out_of_order
  send_out_of_order-Same payload l =
      if_both (λ (k : Link). Same l.connection k.connection)
        (o.out_of_order_before_data && not l.connection.out_of_order_sent)
        (record { next = refl; acked = refl; window = refl; queue = refl; mss = refl })
        (Same-refl l.connection)

  send_corrupt-Same :
      (payload reply : Bytes) (l : Link)
      → Same l.connection (send_corrupt o template payload reply l).connection
  unfolding send_corrupt
  send_corrupt-Same payload reply l = elim (Option-cases o.corrupt_data_once) [
    | inl e ↦ rw e (Same-refl l.connection)
    | inr (at, e) ↦ rw e (
        if_both (λ (k : Link). Same l.connection k.connection)
          (l.connection.corrupt_sent || is_nil payload) (Same-refl l.connection)
          (record { next = refl; acked = refl; window = refl; queue = refl; mss = refl }))
  ]

  send_or_lose-Same :
      (payload : Bytes) (fin : Bool) (reply : Bytes) (l : Link)
      → Same l.connection (send_or_lose o template payload fin reply l).connection
  unfolding send_or_lose
  send_or_lose-Same payload fin reply l = elim (Option-cases o.lose_data_segments) [
    | inl e ↦ rw e (Same-refl l.connection)
    | inr (lost, e) ↦ rw e (
        if_both (λ (k : Link). Same l.connection k.connection)
          (includes lost (l.tally.data_segments_sent + 1))
          (record { next = refl; acked = refl; window = refl; queue = refl; mss = refl })
          (record { next = refl; acked = refl; window = refl; queue = refl; mss = refl }))
  ]

  send_extras-Same :
      (size : ℕ) (reply : Bytes) (l : Link)
      → Same l.connection (send_extras o template size reply l).connection
  unfolding send_extras
  send_extras-Same size reply l = elim (Bool-cases o.duplicate_data) [
    | inl e ↦ rw e (late (emit (deliver_data o reply) l))
    | inr e ↦ rw e (late l)
  ]
    where
      late :
          (l1 : Link)
          → Same l1.connection
              (if o.out_of_order_fin_after_data && not l1.connection.bad_fin_sent
                then emit
                    (deliver_data o (
                      data_frame o template l1.connection
                        (add32 l1.connection.server_next (size + 1))
                        0x11
                        l1.connection.advertised_window
                        []))
                    (record l1 { connection = record l1.connection { bad_fin_sent = true } })
                else l1).connection
      late l1 =
          if_both (λ (k : Link). Same l1.connection k.connection)
            (o.out_of_order_fin_after_data && not l1.connection.bad_fin_sent)
            (record { next = refl; acked = refl; window = refl; queue = refl; mss = refl })
            (Same-refl l1.connection)

  cut_off-Cut : (size : ℕ) (l : Link) → Cut l.connection (cut_off o template size l)
  unfolding cut_off
  cut_off-Cut size l = elim (Option-cases o.abort_after_bytes) [
    | inl e ↦ elim (Option-cases o.stall_after_bytes) [
      | inl f ↦
          rw (e, f)
            (record {
              next = refl;
              acked = refl;
              window = refl;
              going = λ _. (refl, refl);
              ended = λ h. cc;
            })
      | inr (at, f) ↦
          rw (e, f)
            (if_both (Cut l.connection) (leb at bytes && not l.connection.aborted)
              (record {
                next = refl;
                acked = refl;
                window = refl;
                going = λ h. cc;
                ended = λ _. refl;
              })
              (record {
                next = refl;
                acked = refl;
                window = refl;
                going = λ _. (refl, refl);
                ended = λ h. cc;
              }))
    ]
    | inr (at, e) ↦ rw e (
        if_both (Cut l.connection) (leb at bytes && not l.connection.aborted)
          (record { next = refl; acked = refl; window = refl; going = λ h. cc; ended = λ _. refl })
          (record {
            next = refl;
            acked = refl;
            window = refl;
            going = λ _. (refl, refl);
            ended = λ h. cc;
          }))
  ]
    where
      bytes : ℕ
      bytes = l.connection.bytes_sent + size

-- What one round does: it takes the segment off the queue and moves on by it, and by one more for
-- a FIN.
pub record Step (c : Connection) (size : ℕ) (r : Bool × Link) : Type 0 where
  pub next : (f : ℕ) × (f ≤ 1) × (r.1.connection.server_next ≡ add32 c.server_next (size + f))
  pub acked : r.1.connection.server_acked ≡ c.server_acked
  pub window : r.1.connection.client_window ≡ c.client_window
  pub going :
      r.0 ≡ false
      → (r.1.connection.send_queue ≡ drop size c.send_queue)
        × (r.1.connection.client_mss ≡ c.client_mss)
  pub ended : r.0 ≡ true → r.1.connection.aborted ≡ true

fin_size : (b : Bool) → (if b then 1 else 0) ≤ 1
fin_size true = omega arith
fin_size false = omega arith

module _ (o : Options) (template : Segment) where
  account-Step :
      (c : Connection) (size burst : ℕ) (fin : Bool) (l : Link)
      → Same (record c { send_queue = drop size c.send_queue }) l.connection
      → Step c size (cut_off o template size (account o template size fin burst l))
  unfolding account
  account-Step c size burst fin l s =
      let k = cut_off-Cut o template size (account o template size fin burst l) in
      record {
        next = (
          if fin then 1 else 0,
          fin_size fin,
          k.next ∙ ap (λ n. add32 n (size + (if fin then 1 else 0))) s.next,
        );
        acked = k.acked ∙ s.acked;
        window = k.window ∙ s.window;
        going = λ h. ((k.going h).0 ∙ s.queue, (k.going h).1 ∙ s.mss);
        ended = k.ended;
      }

  pub send_segment-Step :
      (burst : ℕ) (l : Link)
      → Step l.connection (segment_size o l.connection) (send_segment o template burst l)
  unfolding send_segment
  send_segment-Step burst l = account-Step l.connection (segment_size o l.connection) burst _ _ (
      Same-trans (send_out_of_order-Same o template _ _) (
        Same-trans (send_corrupt-Same o template _ _ _)
          (Same-trans (send_or_lose-Same o template _ _ _ _) (send_extras-Same o template _ _ _))))
