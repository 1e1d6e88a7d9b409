-- ===== src/Peer/Ftp/Lines/Noted.antt =====
-- What a command line leaves of the FTP state: the line is noted, and nothing noted is lost.
use sprinter_3c509b.Base.{◌≡◌, refl, ◌∙◌, true, Option, none, some, [], ◌∷◌, ◌++◌, Bytes, if_both}
use sprinter_3c509b.Peer.Ftp.{
  Verb, user, pass, type, size, pasv, rest, quit, unknown, FtpOptions, FtpState, Desk,
}
use sprinter_3c509b.Peer.Ftp.Channel.Keep.{push_ftp_data_if_ready-Keeps}
use sprinter_3c509b.Peer.Ftp.Commands.{reply_to, is_refused, compute_ftp_reply, verb_of}
use sprinter_3c509b.Peer.Ftp.Lines.{
  needs_push, pushed, answer_line, note_line, start_transfer, handle_line, put_reply,
}
use sprinter_3c509b.Peer.Ftp.Objects.Keeps.{has_key, on_link-Keeps}
use sprinter_3c509b.Peer.Tcp.{Connection, Key, find}
use sprinter_3c509b.Peer.Text.{word_of, argument_of, upper}

-- Only the pending transfer and the data port of the FTP state change at a reply.
reply_to-requests :
    (ftp : FtpOptions) (verb : Verb) (name arg : Bytes) (c : Connection) (s : FtpState)
    → (reply_to ftp verb name arg c s).1.requests ≡ s.requests
unfolding reply_to
reply_to-requests ftp user name arg c s = refl
reply_to-requests ftp pass name arg c s =
    if_both (λ (r : Bytes × FtpState). r.1.requests ≡ s.requests) ftp.refuse_pass refl refl
reply_to-requests ftp type name arg c s = refl
reply_to-requests ftp size name arg c s =
    if_both (λ (r : Bytes × FtpState). r.1.requests ≡ s.requests) ftp.refuse_size refl refl
reply_to-requests ftp pasv name arg c s =
    if_both (λ (r : Bytes × FtpState). r.1.requests ≡ s.requests) ftp.pasv_garbled refl refl
reply_to-requests ftp rest name arg c s =
    if_both (λ (r : Bytes × FtpState). r.1.requests ≡ s.requests) ftp.rest_refused refl refl
reply_to-requests ftp quit name arg c s = refl
reply_to-requests ftp unknown name arg c s = refl
reply_to-requests ftp verb name arg c s =
    if_both (λ (r : Bytes × FtpState). r.1.requests ≡ s.requests) (is_refused ftp verb name) refl
      refl

compute_ftp_reply-requests :
    (ftp : FtpOptions) (line : Bytes) (c : Connection) (s : FtpState)
    → (compute_ftp_reply ftp line c s).1.requests ≡ s.requests
unfolding compute_ftp_reply
compute_ftp_reply-requests ftp line c s =
    reply_to-requests ftp (verb_of (upper (word_of line))) (upper (word_of line)) (argument_of line)
      c s

-- The line is noted, whatever else it starts.
answer_line-Keeps :
    (ftp : FtpOptions) (k : Key) (line : Bytes) (d : Desk) (o : Option Connection)
    → ((answer_line ftp k line d o).ftp.requests ≡ d.ftp.requests)
      × (has_key k d.responder.connections ≡ true
          → has_key k (answer_line ftp k line d o).responder.connections ≡ true)
answer_line-Keeps ftp k line d none = (refl, λ h. h)
answer_line-Keeps ftp k line d (some c) =
    let (reply, s) = compute_ftp_reply ftp line c d.ftp in
    let kept = on_link-Keeps k (put_reply reply) (record d { ftp = s }) in
    (kept.requests ∙ compute_ftp_reply-requests ftp line c d.ftp, kept.known k)

start_transfer-Keeps :
    (ftp : FtpOptions) (k : Key) (d : Desk)
    → ((start_transfer ftp k d).ftp.requests ≡ d.ftp.requests)
      × (has_key k d.responder.connections ≡ true
          → has_key k (start_transfer ftp k d).responder.connections ≡ true)
start_transfer-Keeps ftp k d =
    let started = record d { ftp = record d.ftp { pending = pushed d.ftp.pending } } in
    let kept = push_ftp_data_if_ready-Keeps ftp started in
    if_both
      (λ (e : Desk).
        (e.ftp.requests ≡ d.ftp.requests)
        × (has_key k d.responder.connections ≡ true → has_key k e.responder.connections ≡ true))
      (needs_push d.ftp.pending) (kept.requests, kept.known k) (refl, λ h. h)

pub handle_line-requests :
    (ftp : FtpOptions) (k : Key) (line : Bytes) (d : Desk)
    → ((handle_line ftp k line d).ftp.requests ≡ d.ftp.requests ++ (line ∷ []))
      × (has_key k d.responder.connections ≡ true
          → has_key k (handle_line ftp k line d).responder.connections ≡ true)
unfolding handle_line
handle_line-requests ftp k line d =
    let o = find k d.responder.connections in
    let answered = answer_line-Keeps ftp k line (note_line ftp k line d) o in
    let started = start_transfer-Keeps ftp k (answer_line ftp k line (note_line ftp k line d) o) in
    (started.0 ∙ answered.0, λ h. started.1 (answered.1 h))
