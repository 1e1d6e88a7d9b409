-- ===== src/Peer/Tcp/Recover.antt =====
-- `recoverLoss` and `retransmitAt`: the responder resends a lost segment on the third duplicate
-- acknowledgement, and one more on each partial one.
pub mod Range
use sprinter_3c509b.Base.{
  ℕ, ◌+◌, Bool, true, false, not, ◌&&◌, ◌||◌, Option, none, some, List, [], ◌∷◌, bit_and, ltb, leb,
  ◌==◌, if◌then◌else◌, length, or_default, sub32,
}
use sprinter_3c509b.Frame.Tcp.{Segment}
use sprinter_3c509b.Peer.Tcp.{Connection, Sent, Options, Link, deliver_data, emit}
use sprinter_3c509b.Peer.Tcp.Drain.{data_frame, is_nil}

-- The closure `offset` of `recoverLoss`.
abbrev pub offset : Connection → ℕ → ℕ
offset c value = sub32 value c.server_isn

-- The segments that are not wholly acknowledged: the leading ones that are get dropped.
abbrev pub unacknowledged : Connection → List Sent → List Sent
unacknowledged c [] = []
unacknowledged c (entry ∷ sent) =
    if leb (offset c entry.sequence + length entry.payload) (offset c c.server_acked)
    then unacknowledged c sent
    else entry ∷ sent

abbrev pub sent_at : ℕ → List Sent → Option Sent
sent_at sequence [] = none
sent_at sequence (entry ∷ sent) =
    if entry.sequence == sequence then some entry else sent_at sequence sent

-- A recorded segment goes out again.
abbrev pub resend : Options → Segment → Link → Option Sent → Link
resend o template l none = l
resend o template l (some entry) =
    let c = l.connection in
    emit
      (deliver_data o (
        data_frame o template c entry.sequence (if entry.fin then 0x19 else 0x18)
          c.advertised_window entry.payload))
      (record l {
        tally = record l.tally { retransmitted_segments = l.tally.retransmitted_segments + 1 };
      })

unfoldable pub retransmit_at : Options → Segment → Link → Link
retransmit_at o template l =
    let c = l.connection in
    resend o template l (sent_at c.server_acked (or_default c.sent_segments []))

-- A partial acknowledgement asks for one more segment; one of everything that was out at the loss
-- ends the recovery.
unfoldable pub resume : Options → Segment → Link → ℕ → Link
unfolding retransmit_at
resume o segment l recover =
    let c = l.connection in
    if ltb (offset c c.server_acked) (offset c recover)
    then retransmit_at o segment l
    else record l { connection = record c { recover = none } }

abbrev pub resume_some : Options → Segment → Link → Option ℕ → Link
resume_some o segment l none = l
resume_some o segment l (some recover) = resume o segment l recover

-- A new acknowledgement.
unfoldable pub on_progress : Options → Segment → Link → Link
unfolding resume
on_progress o segment l =
    resume_some o segment (record l { connection = record l.connection { duplicate_acks = 0 } })
      l.connection.recover

abbrev pub is_none : Option ℕ → Bool
is_none none = true
is_none (some _) = false

-- A segment with nothing new: it counts as a duplicate only if it is a pure acknowledgement with
-- the window unchanged, while data is outstanding.
unfoldable pub on_duplicate : Options → Segment → ℕ → Link → Link
unfolding retransmit_at
on_duplicate o segment previous_window l =
    let c = record l.connection { duplicate_acks = l.connection.duplicate_acks + 1 } in
    let starts = c.duplicate_acks == 3 && is_none c.recover in
    if l.connection.server_next == l.connection.server_acked
      || not (is_nil segment.payload)
      || not (bit_and segment.flags 7 == 0)
      || not (segment.window == previous_window)
    then l
    else if starts
    then retransmit_at o segment
        (record l { connection = record c { recover = some c.server_next } })
    else record l { connection = c }

-- `recoverLoss`, for a connection with the recorded segments `sent`.
unfoldable pub recover_loss : Options → Segment → ℕ → ℕ → List Sent → Link → Link
unfolding on_progress on_duplicate
recover_loss o segment previous_ack previous_window sent l =
    let c = record l.connection { sent_segments = some (unacknowledged l.connection sent) } in
    let l1 = record l { connection = c } in
    if not (c.server_acked == previous_ack)
    then on_progress o segment l1
    else on_duplicate o segment previous_window l1
