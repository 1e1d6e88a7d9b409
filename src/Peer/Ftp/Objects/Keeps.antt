-- ===== src/Peer/Ftp/Objects/Keeps.antt =====
-- What a step of the FTP mode leaves alone: the commands noted, the transfer asked for and the data
-- port; and the connections of the table stay in it.
use sprinter_3c509b.Base.{
  ◌≡◌, refl, ◌∙◌, ap, Bool, true, false, Option, none, some, [], ◌∷◌, Bytes, if_cases, arith,
  if_both, if_true, if_false, ◌||◌, ◌++◌, equal_self, Bool-cases, inl, inr,
}
use sprinter_3c509b.Peer.Ftp.{FtpOptions, Control, nobody, in_table, detached, Desk}
use sprinter_3c509b.Peer.Text.{codes}
use sprinter_3c509b.Peer.Ftp.Commands.{line_end}
use sprinter_3c509b.Peer.Ftp.Objects.{
  link_of, put_link, on_found, on_link, stage_found, stage, at_control, say, send_ftp_control_reply,
  on_fin_sent,
}
use sprinter_3c509b.Peer.Tcp.{Connection, Key, Connections, same_key, find, store, Link}

abbrev pub has_key : Key → Connections → Bool
has_key k [] = false
has_key k ((j, c) ∷ m) = same_key j k || has_key k m

second : (a b : Bool) → a ≡ false → a || b ≡ true → b ≡ true
second a b h k = ground arith

either : (a b c : Bool) → (b ≡ true → c ≡ true) → a || b ≡ true → a || c ≡ true
either true b c f h = refl
either false b c f h = f h

same_key_self : (k : Key) → same_key k k ≡ true
same_key_self k = ground (arith, equal_self k.source)

pub record Keeps (d e : Desk) : Type 0 where
  pub requests : e.ftp.requests ≡ d.ftp.requests
  pub pending : e.ftp.pending ≡ d.ftp.pending
  pub data_port : e.ftp.data_port ≡ d.ftp.data_port
  pub known :
      (k : Key)
      → has_key k d.responder.connections ≡ true
      → has_key k e.responder.connections ≡ true

pub Keeps-refl : (d : Desk) → Keeps d d
Keeps-refl d = record { requests = refl; pending = refl; data_port = refl; known = λ k h. h }

pub Keeps-trans : {c d e : Desk} → Keeps c d → Keeps d e → Keeps c e
Keeps-trans s t = record {
  requests = t.requests ∙ s.requests;
  pending = t.pending ∙ s.pending;
  data_port = t.data_port ∙ s.data_port;
  known = λ k h. t.known k (s.known k h);
}

-- What the table has under a key that it knows.
pub find-has_key :
    (k : Key) (m : Connections) → has_key k m ≡ true → (c : Connection) × (find k m ≡ some c)
find-has_key k [] h = absurd cc
find-has_key k ((j, c) ∷ m) h = elim (Bool-cases (same_key j k)) [
  | inl e ↦ (c, if_true (same_key j k) (some c) (find k m) e)
  | inr e ↦
      let (d, found) = find-has_key k m (second (same_key j k) (has_key k m) e h) in
      (d, if_false (same_key j k) (some c) (find k m) e ∙ found)
]

has_key-store :
    (k j : Key) (c : Connection) (m : Connections)
    → has_key k m ≡ true
    → has_key k (store j c m) ≡ true
has_key-store k j c [] h = absurd cc
has_key-store k j c ((i, b) ∷ m) h =
    if_cases (λ (t : Connections). has_key k t ≡ true) (same_key i j) (λ _. h)
      (λ _. either (same_key i k) (has_key k m) _ (has_key-store k j c m) h)

pub find-store : (k : Key) (c : Connection) (m : Connections) → find k (store k c m) ≡ some c
find-store k c [] = if_true (same_key k k) (some c) none (same_key_self k)
find-store k c ((j, b) ∷ m) = elim (Bool-cases (same_key j k)) [
  | inl e ↦
      ap (find k) (if_true (same_key j k) ((j, c) ∷ m) ((j, b) ∷ store k c m) e)
      ∙ if_true (same_key j k) (some c) (find k m) e
  | inr e ↦
      ap (find k) (if_false (same_key j k) ((j, c) ∷ m) ((j, b) ∷ store k c m) e)
      ∙ (if_false (same_key j k) (some b) (find k (store k c m)) e ∙ find-store k c m)
]

put_link-Keeps : (k : Key) (d : Desk) (l : Link) → Keeps d (put_link k d l)
put_link-Keeps k d l = record {
  requests = refl;
  pending = refl;
  data_port = refl;
  known = λ j. has_key-store j k l.connection d.responder.connections;
}

on_found-Keeps :
    (k : Key) (f : Link → Link) (d : Desk) (o : Option Connection) → Keeps d (on_found k f d o)
on_found-Keeps k f d none = Keeps-refl d
on_found-Keeps k f d (some c) = put_link-Keeps k d (f (link_of d c))

pub on_link-Keeps : (k : Key) (f : Link → Link) (d : Desk) → Keeps d (on_link k f d)
on_link-Keeps k f d = on_found-Keeps k f d (find k d.responder.connections)

stage_found-Keeps :
    (k : Key) (f : Link → Bool × Link) (d : Desk) (o : Option Connection)
    → Keeps d (stage_found k f d o).1
stage_found-Keeps k f d none = Keeps-refl d
stage_found-Keeps k f d (some c) = put_link-Keeps k d (f (link_of d c)).1

pub stage-Keeps : (k : Key) (f : Link → Bool × Link) (d : Desk) → Keeps d (stage k f d).1
stage-Keeps k f d = stage_found-Keeps k f d (find k d.responder.connections)

at_control-Keeps :
    (f : Link → Link) (control : Control) (d : Desk) → Keeps d (at_control f control d)
at_control-Keeps f nobody d = Keeps-refl d
at_control-Keeps f (in_table k) d = on_link-Keeps k f d
at_control-Keeps f (detached c) d = record {
  requests = refl;
  pending = refl;
  data_port = refl;
  known = λ k h. h;
}

send_ftp_control_reply-Keeps :
    (ftp : FtpOptions) (text : Bytes) (d : Desk) → Keeps d (send_ftp_control_reply ftp text d)
unfolding send_ftp_control_reply
send_ftp_control_reply-Keeps ftp text d = at_control-Keeps (say ftp text) d.ftp.control d

pub on_fin_sent-Keeps : (ftp : FtpOptions) (d : Desk) → Keeps d (on_fin_sent ftp d)
unfolding on_fin_sent
on_fin_sent-Keeps ftp d =
    if_both (Keeps d) ftp.suppress_226 (Keeps-refl d)
      (send_ftp_control_reply-Keeps ftp (codes "226 Transfer complete." ++ line_end) d)
