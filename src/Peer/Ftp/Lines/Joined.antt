-- ===== src/Peer/Ftp/Lines/Joined.antt =====
-- The lines of a text: what `first_line` finds, and what a loop over it reads.
use sprinter_3c509b.Base.{
  ℕ, ◌≡◌, refl, sym, ap, ◌∙◌, true, false, ◌&&◌, Option, none, some, List, [], ◌∷◌, ◌++◌,
  append_assoc, ◌==◌, Bytes, arith, if_cases, ap₂, byte_at, if_false,
}
use sprinter_3c509b.Peer.Ftp.Lines.{add_front, first_line}

-- The lines with their ends, and what is behind them.
abbrev pub joined_lines : List Bytes → Bytes → Bytes
joined_lines [] behind = behind
joined_lines (line ∷ lines) behind = line ++ (13 ∷ 10 ∷ joined_lines lines behind)

-- No text of the list holds a CRLF.
abbrev pub AllPlain : List Bytes → Type 0
AllPlain [] = Unit
AllPlain (line ∷ lines) = (first_line line ≡ none) × AllPlain lines

-- What a first line is: a text without a CRLF, in front of one.
abbrev pub Splits : Bytes → Option (Bytes × Bytes) → Type 0
Splits bytes none = Unit
Splits bytes (some (line, behind)) = (first_line line ≡ none) × (bytes ≡ line ++ (13 ∷ 10 ∷ behind))

head_of : (a b : ℕ) (xs ys : Bytes) → ◌≡◌ {A = Bytes} (a ∷ xs) (b ∷ ys) → a ≡ b
head_of a b xs ys e = ap (λ (zs : Bytes). byte_at zs 0) e

-- A byte in front of a line, where no CRLF starts with it.
longer_line :
    (a b : ℕ) (cs line behind : Bytes)
    → a == 13 && b == 10 ≡ false
    → first_line line ≡ none
    → ◌≡◌ {A = Bytes} (b ∷ cs) (line ++ (13 ∷ 10 ∷ behind))
    → first_line (a ∷ line) ≡ none
longer_line a b cs [] behind h ih e = refl
longer_line a b cs (x ∷ xs) behind h ih e =
    let same : a == 13 && x == 10 ≡ false =
      ap (λ y. a == 13 && y == 10) (sym (head_of b x cs (xs ++ (13 ∷ 10 ∷ behind)) e)) ∙ h in
    if_false (a == 13 && x == 10) (some ([], xs)) (add_front a (first_line (x ∷ xs))) same
    ∙ ap (add_front a) ih

add_front-Splits :
    (a b : ℕ) (cs : Bytes) (o : Option (Bytes × Bytes))
    → a == 13 && b == 10 ≡ false
    → Splits (b ∷ cs) o
    → Splits (a ∷ b ∷ cs) (add_front a o)
add_front-Splits a b cs none h s = tt
add_front-Splits a b cs (some (line, behind)) h s =
    (longer_line a b cs line behind h s.0 s.1, ap (◌∷◌ a) s.1)

both_bytes :
    (a b : ℕ) (cs : Bytes) → a == 13 && b == 10 ≡ true → ◌≡◌ {A = Bytes} (a ∷ b ∷ cs) (13 ∷ 10 ∷ cs)
both_bytes a b cs h =
    let ea : a ≡ 13 = ground arith in
    let eb : b ≡ 10 = ground arith in ap₂ (λ x y. x ∷ y ∷ cs) ea eb

pub first_line-Splits : (bytes : Bytes) → Splits bytes (first_line bytes)
first_line-Splits [] = tt
first_line-Splits (a ∷ []) = tt
first_line-Splits (a ∷ b ∷ cs) =
    if_cases (Splits (a ∷ b ∷ cs)) (a == 13 && b == 10) (λ h. (refl, both_bytes a b cs h))
      (λ h. add_front-Splits a b cs (first_line (b ∷ cs)) h (first_line-Splits (b ∷ cs)))

-- What the loop makes of `bytes`: it has noted the lines, and the rest holds no whole one.
pub record Read (requests : List Bytes) (bytes left : Bytes) (after : List Bytes) : Type 0 where
  pub lines : List Bytes
  pub noted : after ≡ requests ++ lines
  pub joined : bytes ≡ joined_lines lines left
  pub plain : AllPlain lines
  pub open_end : first_line left ≡ none

joined_lines-append :
    (lines : List Bytes) (behind more : Bytes)
    → joined_lines lines behind ++ more ≡ joined_lines lines (behind ++ more)
joined_lines-append [] behind more = refl
joined_lines-append (line ∷ lines) behind more =
    append_assoc line (13 ∷ 10 ∷ joined_lines lines behind) more
    ∙ ap (λ t. line ++ (13 ∷ 10 ∷ t)) (joined_lines-append lines behind more)

joined_lines-both :
    (xs ys : List Bytes) (behind : Bytes)
    → joined_lines xs (joined_lines ys behind) ≡ joined_lines (xs ++ ys) behind
joined_lines-both [] ys behind = refl
joined_lines-both (x ∷ xs) ys behind = ap (λ t. x ++ (13 ∷ 10 ∷ t)) (joined_lines-both xs ys behind)

AllPlain-append : (xs ys : List Bytes) → AllPlain xs → AllPlain ys → AllPlain (xs ++ ys)
AllPlain-append [] ys h k = k
AllPlain-append (x ∷ xs) ys h k = (h.0, AllPlain-append xs ys h.1 k)

pub Read-trans :
    {before middle after : List Bytes} (bytes left more last : Bytes)
    → Read before bytes left middle
    → Read middle (left ++ more) last after
    → Read before (bytes ++ more) last after
Read-trans bytes left more last r t = record {
  lines = r.lines ++ t.lines;
  noted = t.noted ∙ (ap (λ ls. ls ++ t.lines) r.noted ∙ append_assoc _ r.lines t.lines);
  joined =
      ap (λ bs. bs ++ more) r.joined
      ∙ (joined_lines-append r.lines left more
          ∙ (ap (joined_lines r.lines) t.joined ∙ joined_lines-both r.lines t.lines last));
  plain = AllPlain-append r.lines t.lines r.plain t.plain;
  open_end = t.open_end;
}
