-- ===== src/Machine/Executable/Windows.antt =====
-- The record of executable pages and the windows of `rd`.
use sprinter_3c509b.Base.{
  ℕ, ◌-◌, ◌%◌, ◌<◌, ◌≤◌, ◌≡◌, refl, sym, ap, ◌∙◌, Bool, true, false, not, ◌&&◌, Option, none, some,
  ltb, leb, if_true, if_false, lt→ltb, le→ltb, le→leb, Bool-cases, inl, inr, arith,
}
use sprinter_3c509b.Machine.Executable.{
  Executable, flag_of, flag_at, or_next, mapped_address, is_mapped_executable,
}
use sprinter_3c509b.Machine.Memory.{window_at}
use sprinter_3c509b.Machine.{Machine, entry_at}

-- The flag of an offset of the page that a window maps.
abbrev pub window_flag : Executable → ℕ → Option ℕ → Bool
window_flag x offset none = false
window_flag x offset (some page) = flag_of (entry_at page x.flags) offset

module _ (x : Executable) (address : ℕ) where
  -- A window above the address has no flag for it.
  above :
      (asked : Bool) (base : ℕ) (w : Option ℕ) (next : Option (ℕ × ℕ))
      → address < base
      → flag_at address x next ≡ false
      → flag_at address x (or_next asked base w next) ≡ false
  above asked base none next h k = k
  above true base (some page) next h k =
      ap (λ b. not b && flag_of (entry_at page x.flags) (address - base)) (lt→ltb address base h)
  above false base (some page) next h k = k

  -- The window of the address, where those behind it have no flag.
  inside :
      (asked : Bool) (base offset : ℕ) (w : Option ℕ) (next : Option (ℕ × ℕ))
      → asked ≡ true
      → base ≤ address
      → address - base ≡ offset
      → flag_at address x next ≡ false
      → flag_at address x (or_next asked base w next) ≡ window_flag x offset w
  inside asked base offset none next a h e k = k
  inside asked base offset (some page) next a h e k =
      ap (flag_at address x) (if_true asked (some (page, base)) next a)
      ∙ (ap (λ b. not b && flag_of (entry_at page x.flags) (address - base)) (le→ltb address base h)
          ∙ ap (λ n. flag_of (entry_at page x.flags) n) e)

  -- A window that is not asked.
  unasked :
      (asked : Bool) (base : ℕ) (w : Option ℕ) (next : Option (ℕ × ℕ))
      → asked ≡ false
      → flag_at address x (or_next asked base w next) ≡ flag_at address x next
  unasked asked base none next h = refl
  unasked asked base (some page) next h =
      ap (flag_at address x) (if_false asked (some (page, base)) next h)

-- Below the ISA window nothing is in front of a page.
below_isa :
    (x : Executable) (address offset : ℕ) (isa : Bool) (w v : Option ℕ)
    → address < 0xc000
    → v ≡ w
    → window_flag x offset w ≡ not (leb 0xc000 address && isa) && window_flag x offset v
below_isa x address offset isa w v h e =
    let low : leb 0xc000 address ≡ false = ground arith in
    ap (window_flag x offset) (sym e) ∙ ap (λ b. not (b && isa) && window_flag x offset v) (sym low)

-- In the ISA window a page counts only while it is closed.
in_isa :
    (x : Executable) (address offset : ℕ) (isa : Bool) (w v : Option ℕ)
    → 0xc000 ≤ address
    → address - 0xc000 ≡ offset
    → v ≡ w
    → flag_at address x (or_next (not isa) 0xc000 w none)
      ≡ not (leb 0xc000 address && isa) && window_flag x offset v
in_isa x address offset true w v h e k =
    unasked x address false 0xc000 w none refl
    ∙ ap (λ b. not (b && true) && window_flag x offset v) (sym (le→leb 0xc000 address h))
in_isa x address offset false w v h e k =
    inside x address true 0xc000 offset w none refl h e refl
    ∙ (ap (window_flag x offset) (sym k)
        ∙ ap (λ b. not (b && false) && window_flag x offset v) (sym (le→leb 0xc000 address h)))

module _ {P : Type 0} (m : Machine P) (x : Executable) where
  abbrev from_third : ℕ → Option (ℕ × ℕ)
  from_third address =
      or_next (ltb address 0xc000) 0x8000 m.win2 (or_next (not m.isa_open) 0xc000 m.win3 none)

  abbrev from_second : ℕ → Option (ℕ × ℕ)
  from_second address = or_next (ltb address 0x8000) 0x4000 m.win1 (from_third address)

  flag-window :
      (address : ℕ)
      → address < 65536
      → flag_at address x (or_next (ltb address 0x4000) 0 m.win0 (from_second address))
        ≡ not (leb 0xc000 address && m.isa_open)
          && window_flag x (address % 0x4000) (window_at m address)
  flag-window address small = elim (Bool-cases (ltb address 0x4000)) [
    | inl first ↦
        inside x address (ltb address 0x4000) 0 (address % 0x4000) m.win0 (from_second address)
          first (omega arith) (ground arith)
          (above x address _ 0x4000 m.win1 (from_third address) (ground arith) (
            above x address _ 0x8000 m.win2 _ (ground arith)
              (above x address _ 0xc000 m.win3 none (ground arith) refl)))
        ∙ below_isa x address _ m.isa_open m.win0 (window_at m address) (ground arith)
            (if_true (ltb address 0x4000) m.win0 _ first)
    | inr n1 ↦
        unasked x address (ltb address 0x4000) 0 m.win0 (from_second address) n1
        ∙ elim (Bool-cases (ltb address 0x8000)) [
          | inl second ↦
              inside x address (ltb address 0x8000) 0x4000 (address % 0x4000) m.win1
                (from_third address) second (ground arith) (ground arith)
                (above x address _ 0x8000 m.win2 _ (ground arith)
                  (above x address _ 0xc000 m.win3 none (ground arith) refl))
              ∙ below_isa x address _ m.isa_open m.win1 (window_at m address) (ground arith) (
                  if_false (ltb address 0x4000) m.win0 _ n1
                  ∙ if_true (ltb address 0x8000) m.win1 _ second)
          | inr n2 ↦
              unasked x address (ltb address 0x8000) 0x4000 m.win1 (from_third address) n2
              ∙ elim (Bool-cases (ltb address 0xc000)) [
                | inl third ↦
                    inside x address (ltb address 0xc000) 0x8000 (address % 0x4000) m.win2 _ third
                      (ground arith) (ground arith)
                      (above x address _ 0xc000 m.win3 none (ground arith) refl)
                    ∙ below_isa x address _ m.isa_open m.win2 (window_at m address) (ground arith) (
                        if_false (ltb address 0x4000) m.win0 _ n1
                        ∙ (if_false (ltb address 0x8000) m.win1 _ n2
                            ∙ if_true (ltb address 0xc000) m.win2 m.win3 third))
                | inr n3 ↦
                    unasked x address (ltb address 0xc000) 0x8000 m.win2 _ n3
                    ∙ in_isa x address _ m.isa_open m.win3 (window_at m address) (ground arith)
                        (ground arith)
                        (if_false (ltb address 0x4000) m.win0 _ n1
                          ∙ (if_false (ltb address 0x8000) m.win1 _ n2
                              ∙ if_false (ltb address 0xc000) m.win2 m.win3 n3))
              ]
        ]
  ]

-- An address counts as executable exactly if the page that `rd` reads for it has the flag of its
-- offset, and the open ISA window is not in front of it: that the windows are tried by their upper
-- ends alone makes no difference.
pub is_mapped_executable-window :
    {P : Type 0} (m : Machine P) (x : Executable) (a : ℕ)
    → is_mapped_executable m a x
      ≡ not (leb 0xc000 (a % 65536) && m.isa_open)
        && window_flag x (a % 65536 % 0x4000) (window_at m (a % 65536))
unfolding is_mapped_executable mapped_address
is_mapped_executable-window m x a = flag-window m x (a % 65536) (omega arith)
