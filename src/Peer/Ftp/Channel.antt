-- ===== src/Peer/Ftp/Channel.antt =====
-- The data channel: `drainConnectionSendQueue` with its callback, and `pushFtpDataIfReady`.
pub mod Keep
use sprinter_3c509b.Base.{
  ℕ, zero, suc, ◌+◌, Bool, true, false, not, ◌&&◌, ◌||◌, Option, none, some, [], ◌∷◌, ◌++◌, ◌==◌,
  if◌then◌else◌, length, drop, Bytes,
}
use sprinter_3c509b.Frame.Tcp.{Segment}
use sprinter_3c509b.Peer.Ftp.{FtpOptions, Pending, FtpState, Desk, data_options, append_to_queue}
use sprinter_3c509b.Peer.Ftp.Objects.{on_link, stage, on_fin_sent}
use sprinter_3c509b.Peer.Ftp.Commands.{resolve_ftp_fixture}
use sprinter_3c509b.Peer.Tcp.{Connection, Key, Connections, find, Link}
use sprinter_3c509b.Peer.Tcp.Drain.{
  is_nil, available, segment_size, carries_fin, put_segment, cut_off, send_out_of_order,
  send_corrupt, send_or_lose, send_extras, account,
}

abbrev pub is_idle : Option Connection → Bool
is_idle none = true
is_idle (some c) = is_nil c.send_queue || available c == 0

abbrev pub queued : Option Connection → ℕ
queued none = 0
queued (some c) = length c.send_queue

-- The bytes of a transfer go into the queue.
abbrev pub put_fixture : FtpOptions → Pending → Link → Link
put_fixture ftp pending l = record l {
  connection = append_to_queue (resolve_ftp_fixture ftp pending) l.connection;
}

module _ (ftp : FtpOptions) (k : Key) where
  -- One round of the loop. The callback runs behind a segment with a FIN, in front of the scenario's
  -- abort.
  abbrev pub send_from : Segment → ℕ → Desk → Option Connection → Bool × Desk
  send_from template burst d none = (true, d)
  send_from template burst d (some c) =
      let o = data_options ftp in
      let size = segment_size o c in
      let sent = on_link k (put_segment o template burst) d in
      let told = if carries_fin o c (drop size c.send_queue) then on_fin_sent ftp sent else sent in
      let counted = record told {
        ftp = record told.ftp { data_bytes_sent = told.ftp.data_bytes_sent + size };
      } in
      stage k (cut_off o template size) counted

  -- The loop, for as many rounds as the fuel says.
  unfoldable pub drain_data : ℕ → Segment → ℕ → Desk → Desk
  unfolding on_fin_sent send_out_of_order send_corrupt send_or_lose send_extras account cut_off
  drain_data zero template burst d = d
  drain_data (suc fuel) template burst d =
      let c = find k d.responder.connections in
      let (ends, d') = send_from template burst d c in
      let rest = drain_data fuel template (burst + 1) d' in
      if is_idle c then d else if ends then d' else rest

  -- Each round sends at least a byte, and the callback adds at most its 24 bytes, once, where the
  -- data channel is the control connection itself.
  unfoldable pub drain_channel : Segment → Desk → Bool × Desk
  unfolding drain_data
  drain_channel template d =
      let c = find k d.responder.connections in
      (not (is_idle c), drain_data (queued c + 24) template 1 d)

  abbrev pub drain_own : Option Segment → Desk → Desk
  drain_own none d = d
  drain_own (some template) d = (drain_channel template d).1

  abbrev pub feed : Pending → Desk → Desk
  feed pending d = on_link k (put_fixture ftp pending) d

-- The first connection to a port: `key.endsWith('/' + port)`.
abbrev pub first_to : ℕ → Connections → Option (Key × Connection)
first_to port [] = none
first_to port ((k, c) ∷ m) = if k.destination_port == port then some (k, c) else first_to port m

module _ (ftp : FtpOptions) where
  abbrev pub push_to : Pending → Desk → Option (Key × Connection) → Desk
  push_to pending d none = d
  push_to pending d (some (k, c)) =
      if not c.established then d else drain_own ftp k c.last_segment (feed ftp k pending d)

  abbrev pub push_pending : Desk → Option Pending → Desk
  push_pending d none = d
  push_pending d (some pending) =
      if d.ftp.data_port == 0
      then d
      else push_to pending d (first_to d.ftp.data_port d.responder.connections)

  unfoldable pub push_ftp_data_if_ready : Desk → Desk
  unfolding drain_channel
  push_ftp_data_if_ready d = push_pending d d.ftp.pending
