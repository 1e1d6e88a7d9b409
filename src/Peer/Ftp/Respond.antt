-- ===== src/Peer/Ftp/Respond.antt =====
-- `respondFtp`: `respondTcp` with the callbacks of the two channels. The options of both ask for no
-- fault, so of the stages of a known connection there are only the ones below.
use sprinter_3c509b.Base.{
  ℕ, ◌+◌, Bool, true, false, not, ◌&&◌, ◌||◌, Option, none, some, [], ◌∷◌, ◌++◌, leb, ◌==◌,
  if◌then◌else◌, length, Bytes, or_nonzero,
}
use sprinter_3c509b.Frame.Tcp.{Segment}
use sprinter_3c509b.Peer.Ftp.{
  FtpOptions, Pending, in_table, Desk, control_options, data_options, append_to_queue,
}
use sprinter_3c509b.Peer.Ftp.Channel.{drain_channel}
use sprinter_3c509b.Peer.Ftp.Commands.{is_stor, line_end, resolve_ftp_fixture}
use sprinter_3c509b.Peer.Ftp.Lines.{handle_ftp_control_data}
use sprinter_3c509b.Peer.Ftp.Objects.{on_link, stage, ◌and_next◌, on_fin_sent, kept_control}
use sprinter_3c509b.Peer.Tcp.{Connection, Options, Key, find, at_once, emit}
use sprinter_3c509b.Peer.Tcp.Drain.{is_nil, data_frame}
use sprinter_3c509b.Peer.Tcp.Respond.{key_of, respond_tcp}
use sprinter_3c509b.Peer.Tcp.Stages.{
  has, opens, accept_data, acknowledge, note_window, note_ack, close, flush,
}
use sprinter_3c509b.Peer.Text.{codes, or_text}

-- The callbacks of a channel, and how it sends what waits.
pub record Channel : Type 0 where
  pub options : Options
  pub on_established : Key → Desk → Desk
  pub on_data : Key → Segment → Desk → Desk
  pub on_fin_sent : Desk → Desk
  pub on_flush : Key → Segment → Desk → Bool × Desk

abbrev pub queue_is_nil : Option Connection → Bool
queue_is_nil none = true
queue_is_nil (some c) = is_nil c.send_queue

abbrev pub fin_is_sent : Option Connection → Bool
fin_is_sent none = true
fin_is_sent (some c) = c.fin_sent

abbrev pub opens_found : Options → Segment → Option Connection → Bool
opens_found o segment none = false
opens_found o segment (some c) = opens o segment c

abbrev pub expects : Segment → Option Connection → Bool
expects segment none = false
expects segment (some c) = segment.sequence == c.client_next

module _ (channel : Channel) (segment : Segment) (k : Key) where
  -- The window and the acknowledgement.
  abbrev pub note : Desk → Desk
  note d =
      on_link k
        (λ l.
          note_ack channel.options segment l.connection.client_window
            (note_window channel.options segment l))
        d

  -- The acknowledgement of the SYN opens the connection.
  abbrev pub establish : Desk → Bool × Desk
  establish d =
      let opened =
        on_link k (λ l. record l { connection = record l.connection { established = true } }) d in
      let d' = channel.on_established k opened in
      if opens_found channel.options segment (find k d.responder.connections)
      then (queue_is_nil (find k d'.responder.connections), d')
      else (false, d)

  abbrev pub count_data : Desk → Desk
  count_data d = record d {
    responder = record d.responder {
      tally = record d.responder.tally { data_count = d.responder.tally.data_count + 1 };
    };
  }

  -- Data in order goes to the callback; other data is acknowledged.
  abbrev pub receive : Desk → Bool × Desk
  receive d =
      let counted = count_data d in
      if is_nil segment.payload
      then (false, d)
      else if not (expects segment (find k d.responder.connections))
      then (true, on_link k (acknowledge channel.options segment) counted)
      else (
        false,
        channel.on_data k segment (on_link k (accept_data channel.options segment) counted),
      )

  -- A FIN of the client; the callback runs where the server's FIN answers it.
  abbrev pub finish : Desk → Bool × Desk
  finish d =
      let (ends, d') = stage k (close channel.options segment) d in
      if has 1 segment.flags && not (fin_is_sent (find k d.responder.connections))
      then (ends, channel.on_fin_sent d')
      else (ends, d')

  abbrev pub on_channel : Desk → Desk
  on_channel d =
      (((establish (note d)) and_next receive)
        and_next finish
        and_next channel.on_flush k segment).1

-- The call of `respondTcp`, as a step of the desk.
abbrev pub by_tcp : Options → Segment → Desk → Desk
by_tcp o segment d =
    let (r, replies) = respond_tcp o segment d.responder in
    record d {
      responder = r;
      ftp = record d.ftp {
        control = kept_control d.responder.connections r.connections d.ftp.control;
      };
      out = d.out ++ replies;
    }

abbrev pub count_request : Desk → Desk
count_request d = record d {
  responder = record d.responder {
    tally = record d.responder.tally { request_count = d.responder.tally.request_count + 1 };
  };
}

-- A segment that neither resets nor opens goes through the stages where the connection is known.
abbrev pub on_known : Channel → Segment → Desk → Option Connection → Desk
on_known channel segment d none = by_tcp channel.options segment d
on_known channel segment d (some c) =
    if c.aborted
    then count_request d
    else on_channel channel segment (key_of segment) (count_request d)

abbrev pub through : Channel → Segment → Desk → Desk
through channel segment d =
    if has 4 segment.flags || has 2 segment.flags
    then by_tcp channel.options segment d
    else on_known channel segment d (find (key_of segment) d.responder.connections)

module _ (ftp : FtpOptions) where
  -- The control channel: the connection is remembered, and greeted.
  unfoldable pub greet : Key → Desk → Desk
  greet k d =
      let known = record d { ftp = record d.ftp { control = in_table k } } in
      let banner = or_text ftp.banner (codes "220 Test FTP server ready." ++ line_end) in
      if ftp.suppress_banner
      then known
      else on_link k (λ l. record l { connection = append_to_queue banner l.connection }) known

  abbrev pub control_channel : Channel
  control_channel = record {
    options = control_options ftp;
    on_established = greet;
    on_data = λ k segment d. handle_ftp_control_data ftp k segment.payload d;
    on_fin_sent = λ d. d;
    on_flush = λ k segment d. stage k (flush (control_options ftp) segment) d;
  }

  -- The data channel: a transfer that waits is put into the queue.
  abbrev pub waiting : Option Pending → Bytes
  waiting none = []
  waiting (some pending) = if is_stor pending.verb then [] else resolve_ftp_fixture ftp pending

  abbrev pub offer : Key → Desk → Desk
  offer k d =
      on_link k
        (λ l. record l { connection = append_to_queue (waiting d.ftp.pending) l.connection }) d

  -- The upload is kept, and cut off where the scenario says so.
  abbrev pub reached : Option ℕ → ℕ → Bool
  reached none n = false
  reached (some threshold) n = leb threshold n

  unfoldable pub take_upload : Key → Segment → Desk → Desk
  take_upload k segment d =
      let o = data_options ftp in
      let kept = record d {
        ftp = record d.ftp { upload_chunks = d.ftp.upload_chunks ++ (segment.payload ∷ []) };
      } in
      on_link k
        (λ l.
          let c = record l.connection {
            bytes_received = l.connection.bytes_received + length segment.payload;
          } in
          let reset = at_once (data_frame o segment c c.server_next 0x04 0 []) in
          if reached ftp.data_abort_after_bytes c.bytes_received && not c.aborted
          then emit reset (record l { connection = record c { aborted = true } })
          else record l { connection = c })
        kept

  -- What waits goes out; an upload that nothing answers is acknowledged.
  unfoldable pub flush_data : Key → Segment → Desk → Bool × Desk
  unfolding drain_channel
  flush_data k segment d =
      let (sent, d') = drain_channel ftp k segment d in
      if not sent && not (is_nil segment.payload)
      then (true, on_link k (acknowledge (data_options ftp) segment) d')
      else (true, d')

  abbrev pub data_channel : Channel
  data_channel = record {
    options = data_options ftp;
    on_established = offer;
    on_data = take_upload;
    on_fin_sent = on_fin_sent ftp;
    on_flush = flush_data;
  }

  unfoldable pub respond_ftp : Segment → Desk → Desk
  unfolding respond_tcp note_window note_ack close flush greet handle_ftp_control_data take_upload
      flush_data on_fin_sent
  respond_ftp segment d =
      let port = segment.destination_port in
      if port == or_nonzero (some ftp.port) 21
      then through control_channel segment d
      else if not (d.ftp.data_port == 0) && port == d.ftp.data_port
      then through data_channel segment d
      else d
