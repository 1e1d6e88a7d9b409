-- ===== src/Peer/Ftp/Lines.antt =====
-- `handleFtpControlData`: the command lines that the control connection receives.
pub mod Noted
pub mod Joined
pub mod Split
use sprinter_3c509b.Base.{
  ℕ, zero, suc, Bool, true, false, ◌&&◌, Option, none, some, [], ◌∷◌, ◌++◌, ◌==◌, if◌then◌else◌,
  length, Bytes,
}
use sprinter_3c509b.Peer.Ftp.{FtpOptions, Pending, FtpState, Desk, append_to_queue}
use sprinter_3c509b.Peer.Ftp.Channel.{push_ftp_data_if_ready}
use sprinter_3c509b.Peer.Ftp.Objects.{on_link}
use sprinter_3c509b.Peer.Ftp.Commands.{compute_ftp_reply}
use sprinter_3c509b.Peer.Tcp.{Connection, Key, find, Link}

-- The first line and what is behind its CRLF, or nothing where no line is whole.
abbrev pub add_front : ℕ → Option (Bytes × Bytes) → Option (Bytes × Bytes)
add_front c none = none
add_front c (some (line, behind)) = some (c ∷ line, behind)

abbrev pub first_line : Bytes → Option (Bytes × Bytes)
first_line [] = none
first_line (a ∷ []) = none
first_line (a ∷ b ∷ cs) =
    if a == 13 && b == 10 then some ([], cs) else add_front a (first_line (b ∷ cs))

abbrev pub needs_push : Option Pending → Bool
needs_push none = false
needs_push (some pending) = pending.needs_push

abbrev pub pushed : Option Pending → Option Pending
pushed none = none
pushed (some pending) = some (record pending { needs_push = false })

abbrev pub put_reply : Bytes → Link → Link
put_reply reply l = record l { connection = append_to_queue reply l.connection }

abbrev pub put_accumulated : Bytes → Link → Link
put_accumulated left l = record l { connection = record l.connection { ftp_accum = left } }

abbrev pub accumulated : Option Connection → Bytes
accumulated none = []
accumulated (some c) = c.ftp_accum

module _ (ftp : FtpOptions) (k : Key) where
  -- The line is noted and answered; the transfer that it asked for starts behind the answer.
  abbrev pub answer_line : Bytes → Desk → Option Connection → Desk
  answer_line line d none = d
  answer_line line d (some c) =
      let (reply, s) = compute_ftp_reply ftp line c d.ftp in
      on_link k (put_reply reply) (record d { ftp = s })

  abbrev pub note_line : Bytes → Desk → Desk
  note_line line d = record d { ftp = record d.ftp { requests = d.ftp.requests ++ (line ∷ []) } }

  abbrev pub start_transfer : Desk → Desk
  start_transfer d =
      if needs_push d.ftp.pending
      then push_ftp_data_if_ready ftp
          (record d { ftp = record d.ftp { pending = pushed d.ftp.pending } })
      else d

  unfoldable pub handle_line : Bytes → Desk → Desk
  unfolding compute_ftp_reply push_ftp_data_if_ready
  handle_line line d =
      start_transfer (answer_line line (note_line line d) (find k d.responder.connections))

  -- The loop, which keeps the bytes in hand and returns what is left of them. A line takes at least
  -- its CRLF, so the number of bytes is enough fuel.
  unfoldable pub handle_lines : ℕ → Bytes → Desk → Bytes × Desk
  unfolding handle_line
  handle_lines zero bytes d = (bytes, d)
  handle_lines (suc fuel) bytes d = elim (first_line bytes) [
    | none ↦ (bytes, d)
    | some (line, behind) ↦ handle_lines fuel behind (handle_line line d)
  ]

  unfoldable pub handle_ftp_control_data : Bytes → Desk → Desk
  unfolding handle_lines
  handle_ftp_control_data payload d =
      let bytes = accumulated (find k d.responder.connections) ++ payload in
      let (left, d') = handle_lines (length bytes) bytes d in on_link k (put_accumulated left) d'
