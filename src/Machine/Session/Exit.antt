-- ===== src/Machine/Session/Exit.antt =====
-- What a program that exits leaves behind.
use sprinter_3c509b.Base.{
  ℕ, true, false, not, Option, none, some, List, [], ◌∷◌, if_cases, ◌≡◌, refl, sym, ap, ◌∙◌, arith,
  if_true, eq→==, ◌==◌,
}
use mathlib.Core.Path.{subst}
use sprinter_3c509b.Card.{Peers}
use sprinter_3c509b.Machine.{
  Outcome, done, failed, then_do, Settings, Machine, Table, Memory, entry_at, has_entry,
}
use sprinter_3c509b.Machine.Disk.{DiskSettings, Answer}
use sprinter_3c509b.Machine.Session.{
  Access, dss, exit, Session, serve, step, run, exit_program, no_entries, with_machine,
}
use sprinter_3c509b.Machine.Session.Blocks.{Covered}
use sprinter_3c509b.Machine.Session.OnStack.{enter_dss-Safely}
use sprinter_3c509b.Machine.Session.Safety.{run-Safely}
use sprinter_3c509b.Machine.Session.Windows.{IsMapped, MemorySound, Safely}
use sprinter_3c509b.Machine.Stack.{enter_dss}

-- Every page is given back, no window maps one, every file is closed, and so is the ISA window.
pub record NothingLeft {P : Type 0} (s : Session P) : Type 0 where
  pub no_pages : s.machine.pages ≡ []
  pub no_blocks : s.machine.allocations ≡ []
  pub no_win0 : s.machine.win0 ≡ none
  pub no_win1 : s.machine.win1 ≡ none
  pub no_win2 : s.machine.win2 ≡ none
  pub no_win3 : s.machine.win3 ≡ none
  pub no_files : s.disk.open_files ≡ []
  pub isa_closed : s.machine.isa_open ≡ false

no_entries-nil {ℓ} : {A : Type ℓ} (t : Table A) → not (no_entries t) ≡ false → t ≡ []
no_entries-nil [] h = refl
no_entries-nil (e ∷ t) h = absurd (ground arith)

Covered-nil :
    (pages : Table Memory) (allocations : Table ℕ) (next : ℕ)
    → allocations ≡ []
    → Covered pages allocations next
    → pages ≡ []
Covered-nil [] allocations next e covered = refl
Covered-nil ((id, page) ∷ pages) allocations next e covered =
    let b = covered id (if_true (id == id) true (has_entry id pages) (eq→== id id refl)) in
    absurd (none_some (ap (entry_at b.base) (sym e) ∙ b.found))
  where
    none_some : {n : ℕ} → none ≡ some n → ⊥
    none_some h = ground arith

IsMapped-nil : (pages : Table Memory) (w : Option ℕ) → pages ≡ [] → IsMapped pages w → w ≡ none
IsMapped-nil pages none e h = refl
IsMapped-nil pages (some page) e h = absurd (apart (ap (has_entry page) (sym e) ∙ h))
  where
    apart : false ≡ true → ⊥
    apart h = ground arith

module _ {P : Type 0} where
  -- The session of an outcome.
  abbrev session_of : Outcome (Answer ℕ × Session P) → Session P → Session P
  session_of (done r) s = r.1
  session_of (failed why) s = s

  exit_program-NothingLeft :
      (code : ℕ) (s : Session P) (r : Answer ℕ × Session P)
      → MemorySound s.machine
      → exit_program code s ≡ done r
      → NothingLeft r.1
  unfolding exit_program
  exit_program-NothingLeft code s r w =
      let Ends = λ (x : Outcome (Answer ℕ × Session P)). x ≡ done r → NothingLeft r.1 in
      if_cases Ends s.machine.isa_open (λ _ h. absurd (cc))
        (λ closed.
          if_cases Ends (not (no_entries s.machine.allocations)) (λ _ h. absurd (cc))
            (λ freed.
              if_cases Ends (not (no_entries s.disk.open_files)) (λ _ h. absurd (cc))
                (λ shut h.
                  let m = s.machine in
                  let blocks = no_entries-nil m.allocations freed in
                  let pages = Covered-nil m.pages m.allocations m.next_block blocks w.covered in
                  subst NothingLeft (ap (λ x. session_of x s) h) (record {
                    no_pages = pages;
                    no_blocks = blocks;
                    no_win0 = IsMapped-nil m.pages m.win0 pages w.first;
                    no_win1 = IsMapped-nil m.pages m.win1 pages w.second;
                    no_win2 = IsMapped-nil m.pages m.win2 pages w.third;
                    no_win3 = IsMapped-nil m.pages m.win3 pages w.fourth;
                    no_files = no_entries-nil s.disk.open_files shut;
                    isa_closed = closed;
                  }))))

  entered :
      (code : ℕ) (t : Session P) (r : Answer ℕ × Session P) (x : Outcome (Machine P))
      → Safely (λ m. m) x
      → then_do x (λ m. exit_program code (with_machine t m)) ≡ done r
      → NothingLeft r.1
  entered code t r (done m) w h = exit_program-NothingLeft code (with_machine t m) r w h
  entered code t r (failed why) w h = absurd cc

-- A program that exits leaves nothing behind: every page is given back, no window maps one, every
-- file is closed, and so is the ISA window. It started with its memory sound, and nothing before
-- the exit threw.
pub run-exit :
    {P : Type 0} (settings : Settings) (o : DiskSettings) (peers : Peers P) (accesses : List Access)
    (s t : Session P) (sp code : ℕ) (r : Answer ℕ × Session P)
    → MemorySound s.machine
    → run settings o peers accesses s ≡ done t
    → step settings o peers (dss sp (exit code)) t ≡ done r
    → NothingLeft r.1
unfolding step serve
run-exit settings o peers accesses s t sp code r w ran left =
    let v : MemorySound t.machine =
      subst (Safely (λ u. u.machine)) ran (run-Safely settings o peers accesses s w) in
    entered code t r (enter_dss settings peers 0 sp t.machine)
      (enter_dss-Safely settings peers 0 sp t.machine v) left
