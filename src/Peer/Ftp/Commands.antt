-- ===== src/Peer/Ftp/Commands.antt =====
-- `computeFtpReply` and `resolveFtpFixture`: what the server says to one line, and what it sends.
pub mod Passive
use sprinter_3c509b.Base.{
  ℕ, ◌+◌, ◌%◌, Bool, true, false, not, ◌&&◌, ◌||◌, Option, none, some, List, [], ◌∷◌, ◌++◌, ◌==◌,
  if◌then◌else◌, Bytes, byte_at, equal, or_default, high, low,
}
use sprinter_3c509b.Frame.Tcp.{Segment}
use sprinter_3c509b.Peer.Ftp.{
  Verb, user, pass, type, size, pasv, rest, retr, stor, list, nlst, quit, unknown, FtpOptions,
  Pending, FtpState,
}
use sprinter_3c509b.Peer.Tcp.{Connection}
use sprinter_3c509b.Peer.Text.{word_of, argument_of, codes, decimal, upper, named, or_text}

unfoldable pub verb_of : Bytes → Verb
verb_of name =
    if equal name (codes "USER")
    then user
    else if equal name (codes "PASS")
    then pass
    else if equal name (codes "TYPE")
    then type
    else if equal name (codes "SIZE")
    then size
    else if equal name (codes "PASV")
    then pasv
    else if equal name (codes "REST")
    then rest
    else if equal name (codes "RETR")
    then retr
    else if equal name (codes "STOR")
    then stor
    else if equal name (codes "LIST")
    then list
    else if equal name (codes "NLST")
    then nlst
    else if equal name (codes "QUIT")
    then quit
    else unknown

abbrev pub is_stor : Verb → Bool
is_stor stor = true
is_stor _ = false

-- `refused.has(verb)`
abbrev pub is_among : Bytes → List Bytes → Bool
is_among name [] = false
is_among name (v ∷ vs) = equal (upper v) name || is_among name vs

-- `(ftp.refuseReplies || {})[verb]`, or nothing.
abbrev pub reply_for : Bytes → List (Bytes × Bytes) → Bytes
reply_for name [] = []
reply_for name ((key, text) ∷ entries) = if equal key name then text else reply_for name entries

-- The size under a name, whatever the case of its letters.
abbrev pub size_of : ℕ → Bytes → List (Bytes × ℕ) → ℕ
size_of missing name [] = missing
size_of missing name ((key, bytes) ∷ entries) =
    if equal (upper key) (upper name) then bytes else size_of missing name entries

abbrev pub line_end : Bytes
line_end = 13 ∷ 10 ∷ []

-- The host of a PASV reply.
abbrev pub host_of : Option Bytes → Option Segment → Bytes
host_of (some ip) last = ip
host_of none (some segment) = segment.destination
host_of none none = 127 ∷ 0 ∷ 0 ∷ 1 ∷ []

-- A number of the address, and a comma.
abbrev pub part : ℕ → Bytes → Bytes
part n behind = decimal n ++ (44 ∷ behind)

abbrev pub passive_reply : Bytes → ℕ → Bytes
passive_reply ip port =
    codes "227 Entering Passive Mode ("
    ++ part (byte_at ip 0) (
        part (byte_at ip 1) (
          part (byte_at ip 2) (
            part (byte_at ip 3)
              (part (high port % 256) (decimal (low port) ++ (codes ")." ++ line_end))))))

module _ (ftp : FtpOptions) where
  -- The port of the next data channel.
  abbrev pub next_port : FtpState → ℕ
  next_port s = if ftp.data_port == 0 then 30000 + (s.pasv_count + 1) else ftp.data_port

  abbrev pub take_port : FtpState → FtpState
  take_port s = record s {
    data_port = next_port s;
    pasv_count = if ftp.data_port == 0 then s.pasv_count + 1 else s.pasv_count;
  }

  abbrev pub is_refused : Verb → Bytes → Bool
  is_refused retr name = is_among name ftp.refuse_verbs || ftp.refuse_retr
  is_refused stor name = is_among name ftp.refuse_verbs || ftp.refuse_stor
  is_refused list name = is_among name ftp.refuse_verbs || ftp.refuse_list
  is_refused _ name = is_among name ftp.refuse_verbs

  -- RETR, STOR, LIST and NLST: the transfer is put off until its reply is in the queue.
  abbrev pub transfer : Verb → Bytes → Bytes → FtpState → Bytes × FtpState
  transfer verb name arg s =
      if is_refused verb name
      then (or_text (reply_for name ftp.refuse_replies) (codes "550 Failed." ++ line_end), s)
      else (
        codes "150 Opening data connection." ++ line_end,
        record s {
          pending = some (record { verb = verb; arg = arg; needs_push = not (is_stor verb) });
        },
      )

  -- The cases of the source's `switch`.
  unfoldable pub reply_to : Verb → Bytes → Bytes → Connection → FtpState → Bytes × FtpState
  reply_to user name arg c s = (
    decimal (or_default ftp.user_reply 331)
        ++ (codes " User " ++ (arg ++ (codes " OK, need password." ++ line_end))),
    s,
  )
  reply_to pass name arg c s =
      if ftp.refuse_pass
      then (codes "530 Login incorrect." ++ line_end, s)
      else (decimal (or_default ftp.pass_reply 230) ++ (codes " Login successful." ++ line_end), s)
  reply_to type name arg c s = (codes "200 Type set to I." ++ line_end, s)
  reply_to size name arg c s =
      if ftp.refuse_size
      then (codes "550 Could not get file size." ++ line_end, s)
      else (codes "213 " ++ (decimal (size_of ftp.size_bytes arg ftp.fixture_sizes) ++ line_end), s)
  reply_to pasv name arg c s =
      if ftp.pasv_garbled
      then (codes "227 Not really passive." ++ line_end, s)
      else (passive_reply (host_of ftp.data_ip c.last_segment) (next_port s), take_port s)
  reply_to rest name arg c s =
      if ftp.rest_refused
      then (codes "502 REST not supported." ++ line_end, s)
      else (codes "350 Restarting at " ++ (arg ++ (46 ∷ line_end)), s)
  reply_to quit name arg c s = (codes "221 Goodbye." ++ line_end, s)
  reply_to unknown name arg c s = (codes "500 Unknown command." ++ line_end, s)
  reply_to verb name arg c s = transfer verb name arg s

  unfoldable pub compute_ftp_reply : Bytes → Connection → FtpState → Bytes × FtpState
  unfolding verb_of reply_to decimal
  compute_ftp_reply line c s =
      let name = upper (word_of line) in reply_to (verb_of name) name (argument_of line) c s

  -- The bytes of a pending transfer.
  abbrev pub fixture_for : Verb → Bytes → Bytes
  fixture_for list arg = ftp.listing
  fixture_for nlst arg = or_default ftp.nlst_listing ftp.listing
  fixture_for _ arg = or_default (named arg ftp.fixtures) []

  abbrev pub resolve_ftp_fixture : Pending → Bytes
  resolve_ftp_fixture pending = fixture_for pending.verb pending.arg
