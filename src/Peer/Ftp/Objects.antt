-- ===== src/Peer/Ftp/Objects.antt =====
-- The connections that the FTP mode works on, reached by their key or by the reference to the
-- control connection.
pub mod Keeps
use sprinter_3c509b.Base.{
  ℕ, Bool, true, false, Option, none, some, List, [], ◌++◌, if◌then◌else◌, Bytes,
}
use sprinter_3c509b.Card.{Reply}
use sprinter_3c509b.Frame.Tcp.{Segment}
use sprinter_3c509b.Peer.Ftp.{
  FtpOptions, Control, nobody, in_table, detached, FtpState, Desk, control_options, append_to_queue,
}
use sprinter_3c509b.Peer.Ftp.Commands.{line_end}
use sprinter_3c509b.Peer.Tcp.{Connection, Options, Key, Connections, find, store, Responder, Link}
use sprinter_3c509b.Peer.Tcp.Drain.{drain}
use sprinter_3c509b.Peer.Text.{codes}

abbrev pub link_of : Desk → Connection → Link
link_of d c = record { tally = d.responder.tally; connection = c; out = d.out }

-- The connection of the table under the key, as the link leaves it.
abbrev pub put_link : Key → Desk → Link → Desk
put_link k d l = record d {
  responder = record {
    tally = l.tally;
    connections = store k l.connection d.responder.connections;
  };
  out = l.out;
}

abbrev pub on_found : Key → (Link → Link) → Desk → Option Connection → Desk
on_found k f d none = d
on_found k f d (some c) = put_link k d (f (link_of d c))

-- What is done to the connection under a key.
abbrev pub on_link : Key → (Link → Link) → Desk → Desk
on_link k f d = on_found k f d (find k d.responder.connections)

abbrev pub stage_found : Key → (Link → Bool × Link) → Desk → Option Connection → Bool × Desk
stage_found k f d none = (true, d)
stage_found k f d (some c) = let (ends, l) = f (link_of d c) in (ends, put_link k d l)

-- A stage of `respondTcp` on the connection under a key.
abbrev pub stage : Key → (Link → Bool × Link) → Desk → Bool × Desk
stage k f d = stage_found k f d (find k d.responder.connections)

-- A stage after another one that did not return.
infixl 5 ◌and_next◌
abbrev pub ◌and_next◌ : Bool × Desk → (Desk → Bool × Desk) → Bool × Desk
r and_next next = if r.0 then r else next r.1

-- What is done to the connection of a reference.
abbrev pub at_control : (Link → Link) → Control → Desk → Desk
at_control f nobody d = d
at_control f (in_table k) d = on_link k f d
at_control f (detached c) d =
    let l = f (link_of d c) in
    record d {
      responder = record d.responder { tally = l.tally };
      ftp = record d.ftp { control = detached l.connection };
      out = l.out;
    }

-- `drainConnectionSendQueue` with the last segment of the connection as its template. Every
-- connection that a SYN has opened has one.
abbrev pub drain_from : Options → Link → Option Segment → Link
drain_from o l none = l
drain_from o l (some template) = (drain o template l).1

module _ (ftp : FtpOptions) where
  abbrev pub say : Bytes → Link → Link
  say text l =
      let c = append_to_queue text l.connection in
      drain_from (control_options ftp) (record l { connection = c }) c.last_segment

  unfoldable pub send_ftp_control_reply : Bytes → Desk → Desk
  unfolding drain
  send_ftp_control_reply text d = at_control (say text) d.ftp.control d

  -- `onFinSent` of the data channel.
  unfoldable pub on_fin_sent : Desk → Desk
  unfolding send_ftp_control_reply
  on_fin_sent d =
      if ftp.suppress_226
      then d
      else send_ftp_control_reply (codes "226 Transfer complete." ++ line_end) d

-- Whether an entry of the table is still the control connection. That one is established, and an
-- entry that a SYN has put in its place is not.
abbrev pub still_there : Option Connection → Bool
still_there none = false
still_there (some c) = c.established

abbrev pub left_behind : Option Connection → Control
left_behind none = nobody
left_behind (some c) = detached c

-- The reference after a call of `respondTcp`, which may take its connection out of the table.
abbrev pub kept_control : Connections → Connections → Control → Control
kept_control before after nobody = nobody
kept_control before after (detached c) = detached c
kept_control before after (in_table k) =
    if still_there (find k after) then in_table k else left_behind (find k before)
