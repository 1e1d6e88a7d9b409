-- ===== src/Peer/Ftp/Lines/Split.antt =====
-- The commands that the control connection receives are the lines of its bytes, however the bytes
-- are cut into segments.
use sprinter_3c509b.Peer.Ftp.Lines.Joined.{
  joined_lines, Splits, first_line-Splits, Read, Read-trans,
}
use sprinter_3c509b.Peer.Ftp.Lines.Noted.{handle_line-requests}
use sprinter_3c509b.Base.{
  ℕ, zero, suc, ◌+◌, ◌≤◌, ◌≡◌, refl, sym, ap, ◌∙◌, true, Option, none, some, List, [], ◌∷◌, ◌++◌,
  append_assoc, length, length-append, Bytes, arith, append-nil,
}
use sprinter_3c509b.Peer.Ftp.{FtpOptions, Desk}
use sprinter_3c509b.Peer.Ftp.Lines.{
  first_line, handle_line, handle_lines, accumulated, put_accumulated, handle_ftp_control_data,
}
use sprinter_3c509b.Peer.Ftp.Objects.{link_of, on_found, on_link}
use sprinter_3c509b.Peer.Ftp.Objects.Keeps.{has_key, find-has_key, find-store, on_link-Keeps}
use sprinter_3c509b.Peer.Tcp.{Key, find}
use sprinter_3c509b.Peer.Text.{joined}

module _ (ftp : FtpOptions) (k : Key) where
  abbrev Done : Bytes → Desk → Bytes × Desk → Type 0
  Done bytes d r =
      Read d.ftp.requests bytes r.0 r.1.ftp.requests
      × (has_key k d.responder.connections ≡ true → has_key k r.1.responder.connections ≡ true)

  -- One more line in front of what the loop has read.
  one_more :
      (line bytes behind : Bytes) (d : Desk) (r : Bytes × Desk)
      → first_line line ≡ none
      → bytes ≡ line ++ (13 ∷ 10 ∷ behind)
      → Done behind (handle_line ftp k line d) r
      → Done bytes d r
  one_more line bytes behind d r plain e (read, known) =
      let (noted, kept) = handle_line-requests ftp k line d in
      (
        record {
          lines = line ∷ read.lines;
          noted =
              read.noted
              ∙ (ap (λ rs. rs ++ read.lines) noted
                  ∙ append_assoc d.ftp.requests (line ∷ []) read.lines);
          joined = e ∙ ap (λ t. line ++ (13 ∷ 10 ∷ t)) read.joined;
          plain = (plain, read.plain);
          open_end = read.open_end;
        },
        λ h. known (kept h),
      )

  shorter :
      (fuel : ℕ) (bytes line behind : Bytes)
      → length bytes ≤ suc fuel
      → bytes ≡ line ++ (13 ∷ 10 ∷ behind)
      → length behind ≤ fuel
  shorter fuel bytes line behind small e =
      let whole : length bytes ≡ length line + suc (suc (length behind)) =
        ap length e ∙ length-append line (13 ∷ 10 ∷ behind) in
      omega arith

  -- One round of the loop, where the rounds behind it are done.
  handle_found-Done :
      (fuel : ℕ) (bytes : Bytes) (d : Desk) (o : Option (Bytes × Bytes))
      → ((behind : Bytes) (e : Desk)
          → length behind ≤ fuel
          → Done behind e (handle_lines ftp k fuel behind e))
      → length bytes ≤ suc fuel
      → first_line bytes ≡ o
      → Splits bytes o
      → Done bytes d (elim o [
        | none ↦ (bytes, d)
        | some (line, behind) ↦ handle_lines ftp k fuel behind (handle_line ftp k line d)
      ])
  handle_found-Done fuel bytes d none ih small e s = (
    record {
      lines = [];
      noted = sym (append-nil d.ftp.requests);
      joined = refl;
      plain = tt;
      open_end = e;
    },
    λ h. h,
  )
  handle_found-Done fuel bytes d (some (line, behind)) ih small e s =
      one_more line bytes behind d (handle_lines ftp k fuel behind (handle_line ftp k line d)) s.0
        s.1 (ih behind (handle_line ftp k line d) (shorter fuel bytes line behind small s.1))

  handle_lines-Done :
      (fuel : ℕ) (bytes : Bytes) (d : Desk)
      → length bytes ≤ fuel
      → Done bytes d (handle_lines ftp k fuel bytes d)
  unfolding handle_lines
  handle_lines-Done zero [] d small = (
    record {
      lines = [];
      noted = sym (append-nil d.ftp.requests);
      joined = refl;
      plain = tt;
      open_end = refl;
    },
    λ h. h,
  )
  handle_lines-Done zero (x ∷ xs) d small = absurd (omega arith)
  handle_lines-Done (suc fuel) bytes d small =
      handle_found-Done fuel bytes d (first_line bytes) (handle_lines-Done fuel) small refl
        (first_line-Splits bytes)

  abbrev pub kept_bytes : Desk → Bytes
  kept_bytes d = accumulated (find k d.responder.connections)

  -- What the connection keeps is what is put there.
  put_accumulated-kept :
      (left : Bytes) (d : Desk)
      → has_key k d.responder.connections ≡ true
      → kept_bytes (on_link k (put_accumulated left) d) ≡ left
  put_accumulated-kept left d h =
      let (c, found) = find-has_key k d.responder.connections h in
      ap (λ o. kept_bytes (on_found k (put_accumulated left) d o)) found
      ∙ ap accumulated
          (find-store k (put_accumulated left (link_of d c)).connection d.responder.connections)

  handle_ftp_control_data-Read :
      (payload : Bytes) (d : Desk)
      → has_key k d.responder.connections ≡ true
      → let e = handle_ftp_control_data ftp k payload d in
        Read d.ftp.requests (kept_bytes d ++ payload) (kept_bytes e) e.ftp.requests
        × (has_key k e.responder.connections ≡ true)
  unfolding handle_ftp_control_data
  handle_ftp_control_data-Read payload d h =
      let bytes = kept_bytes d ++ payload in
      let r = handle_lines ftp k (length bytes) bytes d in
      let (read, known) = handle_lines-Done (length bytes) bytes d (omega arith) in
      let kept = on_link-Keeps k (put_accumulated r.0) r.1 in
      let left = put_accumulated-kept r.0 r.1 (known h) in
      (
        record {
          lines = read.lines;
          noted = kept.requests ∙ read.noted;
          joined = read.joined ∙ ap (joined_lines read.lines) (sym left);
          plain = read.plain;
          open_end = ap first_line left ∙ read.open_end;
        },
        kept.known k (known h),
      )

  -- One payload behind the other.
  abbrev pub handle_all : List Bytes → Desk → Desk
  handle_all [] d = d
  handle_all (payload ∷ payloads) d = handle_all payloads (handle_ftp_control_data ftp k payload d)

-- However the bytes of the control connection are cut into payloads, the server notes as its
-- requests the lines of those bytes, in order: put together again, each with a CRLF behind it, and
-- the bytes that the connection keeps behind them, they are what it kept before and the payloads.
-- No line holds a CRLF, nor do the bytes that are kept. The connection is in the table, and kept no
-- whole line.
pub handle_all-Read :
    (ftp : FtpOptions) (k : Key) (payloads : List Bytes) (d : Desk)
    → has_key k d.responder.connections ≡ true
    → first_line (kept_bytes ftp k d) ≡ none
    → let e = handle_all ftp k payloads d in
      Read d.ftp.requests
        (kept_bytes ftp k d ++ joined payloads)
        (kept_bytes ftp k e)
        e.ftp.requests
handle_all-Read ftp k [] d h whole = record {
  lines = [];
  noted = sym (append-nil d.ftp.requests);
  joined = append-nil (kept_bytes ftp k d);
  plain = tt;
  open_end = whole;
}
handle_all-Read ftp k (payload ∷ payloads) d h whole =
    let e = handle_ftp_control_data ftp k payload d in
    let (read, known) = handle_ftp_control_data-Read ftp k payload d h in
    let later = handle_all-Read ftp k payloads e known read.open_end in
    let both =
      Read-trans (kept_bytes ftp k d ++ payload) (kept_bytes ftp k e) (joined payloads) _ read
        later in
    record {
      lines = both.lines;
      noted = both.noted;
      joined = sym (append_assoc (kept_bytes ftp k d) payload (joined payloads)) ∙ both.joined;
      plain = both.plain;
      open_end = both.open_end;
    }
