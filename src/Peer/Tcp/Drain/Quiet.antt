-- ===== src/Peer/Tcp/Drain/Quiet.antt =====
-- A round of `drainConnectionSendQueue` in a scenario without faults.
use sprinter_3c509b.Base.{
  ℕ, zero, suc, ◌≡◌, refl, ap, ◌∙◌, Bool, true, false, not, ◌&&◌, ◌||◌, none, [], ◌∷◌, ◌==◌,
  if◌then◌else◌, if_true, if_false, take, drop, Bytes, arith,
}
use sprinter_3c509b.Frame.Tcp.{Segment}
use sprinter_3c509b.Peer.Tcp.{Connection, Options, Link, deliver_data, emit}
use sprinter_3c509b.Peer.Tcp.Drain.{
  is_nil, available, segment_size, carries_fin, data_frame, send_out_of_order, send_corrupt,
  send_or_lose, send_extras, account, cut_off, send_segment, drain_loop,
}

-- The scenario puts nothing around the data, loses none of it and cuts nothing off.
pub record IsQuiet (o : Options) : Type 0 where
  pub in_order : o.out_of_order_before_data ≡ false
  pub sound : o.corrupt_data_once ≡ none
  pub lossless : o.lose_data_segments ≡ none
  pub once : o.duplicate_data ≡ false
  pub no_early_fin : o.out_of_order_fin_after_data ≡ false
  pub no_fin : o.remote_fin_after_data ≡ false
  pub no_abort : o.abort_after_bytes ≡ none
  pub no_stall : o.stall_after_bytes ≡ none

module _ (o : Options) (template : Segment) where
  -- The connection without the bytes of the next segment.
  abbrev pub cut_queue : Connection → Connection
  cut_queue c = record c { send_queue = drop (segment_size o c) c.send_queue }

  -- The link behind a round of a quiet scenario.
  abbrev pub after_round : ℕ → Link → Link
  after_round burst l =
      let c = l.connection in
      let size = segment_size o c in
      let rest = drop size c.send_queue in
      let c' = record c { send_queue = rest } in
      let fin = carries_fin o c' rest in
      let reply =
        data_frame o template c' c'.server_next (if fin then 0x19 else 0x18) c'.advertised_window
          (take size c.send_queue) in
      account o template size fin burst (emit (deliver_data o reply) (record l { connection = c' }))

  -- A round behind the copy that is sent out of order.
  abbrev around : ℕ → ℕ → Bytes → Bytes → Link → Bool × Link
  around size burst payload left l1 =
      let c = l1.connection in
      let fin = carries_fin o c left in
      let reply =
        data_frame o template c c.server_next (if fin then 0x19 else 0x18) c.advertised_window
          payload in
      let l2 =
        send_or_lose o template payload fin reply (send_corrupt o template payload reply l1) in
      cut_off o template size
        (account o template size fin burst (send_extras o template size reply l2))

  module _ (q : IsQuiet o) where
    quiet_out_of_order : (payload : Bytes) (l : Link) → send_out_of_order o template payload l ≡ l
    unfolding send_out_of_order
    quiet_out_of_order payload l =
        if_false (o.out_of_order_before_data && not l.connection.out_of_order_sent) _ l
          (ap (λ b. b && not l.connection.out_of_order_sent) q.in_order)

    quiet_corrupt : (payload reply : Bytes) (l : Link) → send_corrupt o template payload reply l ≡ l
    unfolding send_corrupt
    quiet_corrupt payload reply l = rw q.sound refl

    quiet_or_lose :
        (payload : Bytes) (fin : Bool) (reply : Bytes) (l : Link)
        → send_or_lose o template payload fin reply l ≡ emit (deliver_data o reply) l
    unfolding send_or_lose
    quiet_or_lose payload fin reply l = rw q.lossless refl

    quiet_extras : (size : ℕ) (reply : Bytes) (l : Link) → send_extras o template size reply l ≡ l
    unfolding send_extras
    quiet_extras size reply l = rw (q.once, q.no_early_fin) refl

    quiet_cut_off : (size : ℕ) (l : Link) → cut_off o template size l ≡ (false, l)
    unfolding cut_off
    quiet_cut_off size l = rw (q.no_abort, q.no_stall) refl

    -- What is left of a round.
    pub quiet_round :
        (burst : ℕ) (l : Link) → send_segment o template burst l ≡ (false, after_round burst l)
    unfolding send_segment
    quiet_round burst l =
        let c = l.connection in
        let size = segment_size o c in
        let payload = take size c.send_queue in
        let left = drop size c.send_queue in
        let l0 = record l { connection = record c { send_queue = left } } in
        let fin = carries_fin o l0.connection left in
        let reply =
          data_frame o template l0.connection l0.connection.server_next (if fin then 0x19 else 0x18)
            l0.connection.advertised_window payload in
        let sent =
          ap (send_extras o template size reply) (
            ap (send_or_lose o template payload fin reply) (quiet_corrupt payload reply l0)
            ∙ quiet_or_lose payload fin reply l0)
          ∙ quiet_extras size reply (emit (deliver_data o reply) l0) in
        ap (around size burst payload left) (quiet_out_of_order payload l0)
        ∙ (ap (λ k. cut_off o template size (account o template size fin burst k)) sent
            ∙ quiet_cut_off size (after_round burst l))

  -- With nothing to send, the loop does nothing.
  pub drain_loop-nil :
      (fuel burst : ℕ) (l : Link)
      → l.connection.send_queue ≡ []
      → drain_loop o template fuel burst l ≡ l
  unfolding drain_loop
  drain_loop-nil zero burst l e = refl
  drain_loop-nil (suc fuel) burst l e =
      if_true (is_nil l.connection.send_queue || available l.connection == 0) l _
        (ap (λ q. is_nil q || available l.connection == 0) e)

  -- A FIN goes out with the last bytes only.
  pub carries_fin-last :
      (c : Connection) (left : Bytes) → IsQuiet o → carries_fin o c left ≡ true → left ≡ []
  carries_fin-last c [] q h = refl
  carries_fin-last c (x ∷ xs) q h = absurd (ground (arith, q.no_fin))
