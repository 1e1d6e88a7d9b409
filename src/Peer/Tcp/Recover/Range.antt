-- ===== src/Peer/Tcp/Recover/Range.antt =====
-- `recoverLoss` keeps the sequence numbers and the window in their ranges.
use sprinter_3c509b.Base.{
  ℕ, ◌+◌, ◌<◌, ◌≡◌, refl, sym, not, ◌&&◌, ◌||◌, Option, none, some, List, ltb, ◌==◌, u32, if_both,
  bit_and,
}
use mathlib.Core.Path.{subst}
use sprinter_3c509b.Frame.Tcp.{Segment}
use sprinter_3c509b.Peer.Tcp.{Options, Link, Sent}
use sprinter_3c509b.Peer.Tcp.Drain.{is_nil}
use sprinter_3c509b.Peer.Tcp.Drain.Window.{InRange}
use sprinter_3c509b.Peer.Tcp.Recover.{
  offset, is_none, unacknowledged, resend, retransmit_at, resume, resume_some, on_progress,
  on_duplicate, recover_loss,
}

-- The connection is in range.
pub record Sound (l : Link) : Type 0 where
  pub in_range : InRange l.connection

pub keeps :
    {l m : Link}
    → m.connection.server_next ≡ l.connection.server_next
    → m.connection.server_acked ≡ l.connection.server_acked
    → m.connection.client_window ≡ l.connection.client_window
    → Sound l
    → Sound m
keeps next acked window v = record {
  in_range = record {
    next = subst (λ n. n < u32) (sym next) v.in_range.next;
    acked = subst (λ n. n < u32) (sym acked) v.in_range.acked;
    window = subst (λ n. n < 65536) (sym window) v.in_range.window;
  };
}

module _ (o : Options) (s : Segment) where
  resend-Sound : (l : Link) (entry : Option Sent) → Sound l → Sound (resend o s l entry)
  resend-Sound l none v = v
  resend-Sound l (some entry) v = keeps refl refl refl v

  retransmit_at-Sound : (l : Link) → Sound l → Sound (retransmit_at o s l)
  unfolding retransmit_at
  retransmit_at-Sound l v = resend-Sound l _ v

  resume-Sound : (l : Link) (recover : ℕ) → Sound l → Sound (resume o s l recover)
  unfolding resume
  resume-Sound l recover v =
      if_both Sound
        (ltb (offset l.connection l.connection.server_acked) (offset l.connection recover))
        (retransmit_at-Sound l v) (keeps refl refl refl v)

  resume_some-Sound : (l : Link) (recover : Option ℕ) → Sound l → Sound (resume_some o s l recover)
  resume_some-Sound l none v = v
  resume_some-Sound l (some recover) v = resume-Sound l recover v

  on_progress-Sound : (l : Link) → Sound l → Sound (on_progress o s l)
  unfolding on_progress
  on_progress-Sound l v = resume_some-Sound _ l.connection.recover (keeps refl refl refl v)

  on_duplicate-Sound : (w : ℕ) (l : Link) → Sound l → Sound (on_duplicate o s w l)
  unfolding on_duplicate
  on_duplicate-Sound w l v =
      if_both Sound
        (l.connection.server_next == l.connection.server_acked
          || not (is_nil s.payload)
          || not (bit_and s.flags 7 == 0)
          || not (s.window == w))
        v
        (if_both Sound (l.connection.duplicate_acks + 1 == 3 && is_none l.connection.recover)
          (retransmit_at-Sound
            (record l {
              connection = record l.connection {
                duplicate_acks = l.connection.duplicate_acks + 1;
                recover = some l.connection.server_next;
              };
            })
            (keeps refl refl refl v))
          (keeps refl refl refl v))

  pub recover_loss-Sound :
      (a w : ℕ) (sent : List Sent) (l : Link) → Sound l → Sound (recover_loss o s a w sent l)
  unfolding recover_loss
  recover_loss-Sound a w sent l v =
      if_both Sound (not (l.connection.server_acked == a)) (on_progress-Sound trimmed kept)
        (on_duplicate-Sound w trimmed kept)
    where
      trimmed : Link
      trimmed = record l {
        connection = record l.connection {
          sent_segments = some (unacknowledged l.connection sent);
        };
      }

      kept : Sound trimmed
      kept = keeps refl refl refl v
