-- ===== src/Peer/Tcp/Respond/Range.antt =====
-- The connections of the TCP responder stay in range, whatever segments come.
use sprinter_3c509b.Base.{
  ℕ, ◌+◌, ◌&&◌, ◌||◌, Option, none, some, List, [], ◌∷◌, length, leb, ◌==◌, or_nonzero, add32,
  if_both,
}
use sprinter_3c509b.Card.{Reply}
use sprinter_3c509b.Frame.Tcp.{Segment}
use sprinter_3c509b.Peer.Tcp.{
  Connection, Options, Key, Connections, Responder, same_key, find, delete, store,
}
use sprinter_3c509b.Peer.Tcp.Drain.Window.{InRange}
use sprinter_3c509b.Peer.Tcp.Stages.{has}
use sprinter_3c509b.Peer.Tcp.Stages.Range.{SegmentInRange, on_connection-Sound, add32-below}
use sprinter_3c509b.Peer.Tcp.Respond.{
  key_of, is_drop_all, open_connection, syn_with, on_syn, on_found, on_known, respond_tcp,
}

-- Every connection of the table is in range.
abbrev pub AllInRange : Connections → Type 0
AllInRange [] = Unit
AllInRange ((k, c) ∷ m) = InRange c × AllInRange m

-- What a call of the responder leaves.
record Leaves (r : Responder × List Reply) : Type 0 where
  all : AllInRange r.0.connections

store-AllInRange :
    (k : Key) (c : Connection) (m : Connections)
    → InRange c
    → AllInRange m
    → AllInRange (store k c m)
store-AllInRange k c [] v a = (v, tt)
store-AllInRange k c ((j, d) ∷ m) v a =
    if_both AllInRange (same_key j k) (v, a.1) (a.0, store-AllInRange k c m v a.1)

delete-AllInRange : (k : Key) (m : Connections) → AllInRange m → AllInRange (delete k m)
delete-AllInRange k [] a = tt
delete-AllInRange k ((j, d) ∷ m) a =
    if_both AllInRange (same_key j k) (delete-AllInRange k m a.1) (a.0, delete-AllInRange k m a.1)

-- What is found is in range.
abbrev FoundInRange : Option Connection → Type 0
FoundInRange none = Unit
FoundInRange (some c) = InRange c

find-FoundInRange : (k : Key) (m : Connections) → AllInRange m → FoundInRange (find k m)
find-FoundInRange k [] a = tt
find-FoundInRange k ((j, d) ∷ m) a =
    if_both FoundInRange (same_key j k) a.0 (find-FoundInRange k m a.1)

module _ (o : Options) (s : Segment) (fits : SegmentInRange s) where
  open_connection-InRange : (ordinal : ℕ) → InRange (open_connection o s ordinal)
  open_connection-InRange ordinal = record {
    next = add32-below _ 1;
    acked = add32-below _ 1;
    window = fits.window;
  }

  syn_with-InRange :
      (m : Connections) (found : Option Connection)
      → FoundInRange found
      → InRange (syn_with o s m found)
  syn_with-InRange m none v = open_connection-InRange (length m + 1)
  syn_with-InRange m (some c) v =
      if_both InRange (c.client_next == add32 s.sequence 1)
        (record { next = v.next; acked = v.acked; window = v.window })
        (open_connection-InRange (length m + 1))

  on_syn-Leaves : (r : Responder) → AllInRange r.connections → Leaves (on_syn o s r)
  unfolding on_syn
  on_syn-Leaves r a =
      if_both Leaves (leb (r.tally.syn_count + 1) o.drop_syn) (record { all = a })
        (if_both Leaves
          (o.reset_on_syn
            && (o.reset_always || r.tally.syn_count + 1 == or_nonzero o.reset_on_syn_at 1))
          (record { all = a })
          (record {
            all =
                store-AllInRange (key_of s) _ r.connections
                  (syn_with-InRange r.connections _ (find-FoundInRange (key_of s) r.connections a))
                  a;
          }))

  on_known-Leaves :
      (c : Connection) (r : Responder)
      → InRange c
      → AllInRange r.connections
      → Leaves (on_known o s c r)
  unfolding on_known
  on_known-Leaves c r v a =
      if_both Leaves c.aborted (record { all = a })
        (record {
          all =
              store-AllInRange (key_of s) _ r.connections
                (on_connection-Sound o s fits _ (record { in_range = v })).in_range a;
        })

  on_found-Leaves :
      (found : Option Connection) (r : Responder)
      → FoundInRange found
      → AllInRange r.connections
      → Leaves (on_found o s r found)
  on_found-Leaves none r v a = record { all = a }
  on_found-Leaves (some c) r v a = on_known-Leaves c r v a

  respond_tcp-Leaves : (r : Responder) → AllInRange r.connections → Leaves (respond_tcp o s r)
  unfolding respond_tcp
  respond_tcp-Leaves r a =
      if_both Leaves (has 4 s.flags) (record { all = delete-AllInRange (key_of s) r.connections a })
        (if_both Leaves (leb (r.tally.request_count + 1) o.drop || is_drop_all o.mode)
          (record { all = a })
          (if_both Leaves (has 2 s.flags)
            (on_syn-Leaves
              (record r { tally = record r.tally { request_count = r.tally.request_count + 1 } }) a)
            (on_found-Leaves _ _ (find-FoundInRange (key_of s) r.connections a) a)))

-- The segments that come one after another.
abbrev pub respond_all : Options → List Segment → Responder → Responder
respond_all o [] r = r
respond_all o (s ∷ rest) r = respond_all o rest (respond_tcp o s r).0

abbrev pub AllSegments : List Segment → Type 0
AllSegments [] = Unit
AllSegments (s ∷ rest) = SegmentInRange s × AllSegments rest

-- From a responder whose connections are in range, such as one with none, any sequence of
-- segments, whose numbers have the widths of their fields, leads to one whose connections are in
-- range: each server number below 2^32 and each window below 2^16.
pub respond_all-AllInRange :
    (o : Options) (segments : List Segment) (r : Responder)
    → AllSegments segments
    → AllInRange r.connections
    → AllInRange (respond_all o segments r).connections
respond_all-AllInRange o [] r fits a = a
respond_all-AllInRange o (s ∷ rest) r fits a =
    respond_all-AllInRange o rest (respond_tcp o s r).0 fits.1
      (respond_tcp-Leaves o s fits.0 r a).all
