-- ===== src/Peer/Ftp/Channel/Keep.antt =====
-- The data channel leaves the commands and the pending transfer alone.
use sprinter_3c509b.Base.{
  ℕ, zero, suc, ◌+◌, refl, not, ◌==◌, Option, none, some, if_both, if◌then◌else◌, drop,
}
use sprinter_3c509b.Frame.Tcp.{Segment}
use sprinter_3c509b.Peer.Ftp.{FtpOptions, Pending, Desk, data_options}
use sprinter_3c509b.Peer.Ftp.Channel.{
  is_idle, send_from, drain_data, queued, drain_channel, drain_own, put_fixture, feed, first_to,
  push_to, push_pending, push_ftp_data_if_ready,
}
use sprinter_3c509b.Peer.Ftp.Objects.{on_link, on_fin_sent}
use sprinter_3c509b.Peer.Ftp.Objects.Keeps.{
  Keeps, Keeps-refl, Keeps-trans, on_link-Keeps, stage-Keeps, on_fin_sent-Keeps,
}
use sprinter_3c509b.Peer.Tcp.{Connection, Key, find}
use sprinter_3c509b.Peer.Tcp.Drain.{segment_size, carries_fin, put_segment, cut_off}

counted-Keeps :
    (d : Desk) (n : ℕ) → Keeps d (record d { ftp = record d.ftp { data_bytes_sent = n } })
counted-Keeps d n = record { requests = refl; pending = refl; data_port = refl; known = λ k h. h }

module _ (ftp : FtpOptions) (k : Key) (template : Segment) where
  pub send_from-Keeps :
      (burst : ℕ) (d : Desk) (o : Option Connection)
      → Keeps d (send_from ftp k template burst d o).1
  send_from-Keeps burst d none = Keeps-refl d
  send_from-Keeps burst d (some c) =
      let o = data_options ftp in
      let size = segment_size o c in
      let sent = on_link k (put_segment o template burst) d in
      let fin = carries_fin o c (drop size c.send_queue) in
      let told = if fin then on_fin_sent ftp sent else sent in
      let n = told.ftp.data_bytes_sent + size in
      let counted = record told { ftp = record told.ftp { data_bytes_sent = n } } in
      let fin_told : Keeps sent told =
        if_both (Keeps sent) fin (on_fin_sent-Keeps ftp sent) (Keeps-refl sent) in
      Keeps-trans (on_link-Keeps k (put_segment o template burst) d) (
        Keeps-trans fin_told
          (Keeps-trans (counted-Keeps told n) (stage-Keeps k (cut_off o template size) counted)))

  drain_data-Keeps : (fuel burst : ℕ) (d : Desk) → Keeps d (drain_data ftp k fuel template burst d)
  unfolding drain_data
  drain_data-Keeps zero burst d = Keeps-refl d
  drain_data-Keeps (suc fuel) burst d =
      let c = find k d.responder.connections in
      let r = send_from ftp k template burst d c in
      let step = send_from-Keeps burst d c in
      if_both (Keeps d) (is_idle c) (Keeps-refl d)
        (if_both (Keeps d) r.0 step (Keeps-trans step (drain_data-Keeps fuel (burst + 1) r.1)))

drain_own-Keeps :
    (ftp : FtpOptions) (k : Key) (o : Option Segment) (d : Desk) → Keeps d (drain_own ftp k o d)
unfolding drain_channel
drain_own-Keeps ftp k none d = Keeps-refl d
drain_own-Keeps ftp k (some template) d =
    drain_data-Keeps ftp k template (queued (find k d.responder.connections) + 24) 1 d

push_to-Keeps :
    (ftp : FtpOptions) (pending : Pending) (d : Desk) (o : Option (Key × Connection))
    → Keeps d (push_to ftp pending d o)
push_to-Keeps ftp pending d none = Keeps-refl d
push_to-Keeps ftp pending d (some (k, c)) = if_both (Keeps d) (not c.established) (Keeps-refl d) (
    Keeps-trans (on_link-Keeps k (put_fixture ftp pending) d)
      (drain_own-Keeps ftp k c.last_segment (feed ftp k pending d)))

push_pending-Keeps :
    (ftp : FtpOptions) (d : Desk) (o : Option Pending) → Keeps d (push_pending ftp d o)
push_pending-Keeps ftp d none = Keeps-refl d
push_pending-Keeps ftp d (some pending) =
    if_both (Keeps d) (d.ftp.data_port == 0) (Keeps-refl d)
      (push_to-Keeps ftp pending d (first_to d.ftp.data_port d.responder.connections))

pub push_ftp_data_if_ready-Keeps :
    (ftp : FtpOptions) (d : Desk) → Keeps d (push_ftp_data_if_ready ftp d)
unfolding push_ftp_data_if_ready
push_ftp_data_if_ready-Keeps ftp d = push_pending-Keeps ftp d d.ftp.pending
