-- ===== src/Machine/Stack.antt =====
-- What a DSS call does to the memory around it: the words it spends below the stack pointer, the
-- return address it takes, the strings it reads and writes.
use sprinter_3c509b.Base.{
  ℕ, zero, suc, ◌+◌, ◌-◌, ◌%◌, ◌&&◌, ◌||◌, [], ◌∷◌, ltb, leb, ◌==◌, if◌then◌else◌, length, Bytes,
  word, or_default,
}
use sprinter_3c509b.Card.{Peers}
use sprinter_3c509b.Machine.{
  Outcome, done, failed, then_do, isa_is_open, console_stack, unterminated_string, Settings,
  Machine,
}
use sprinter_3c509b.Machine.Memory.{rd, wr}

-- What a call leaves of the string it reads.
abbrev pub with_char : {P : Type 0} → ℕ → Outcome (Bytes × Machine P) → Outcome (Bytes × Machine P)
with_char c result = then_do result (λ r. done (c ∷ r.0, r.1))

module _ {P : Type 0} (settings : Settings) where
  -- `ret`: the return address, and the stack pointer behind it.
  unfoldable pub ret : ℕ → Machine P → Outcome ((ℕ × ℕ) × Machine P)
  ret sp m = then_do (rd settings sp m) (λ lo.
      then_do (rd settings ((sp + 1) % 65536) lo.1)
        (λ hi. done ((word hi.0 lo.0, (sp + 2) % 65536), hi.1)))

  -- `cstr`: the bytes up to a 0, of which there are fewer than the fuel.
  unfoldable pub read_text : ℕ → ℕ → Machine P → Outcome (Bytes × Machine P)
  read_text zero address m = failed unterminated_string
  read_text (suc fuel) address m = then_do (rd settings address m) (λ r.
      let rest = read_text fuel (address + 1) r.1 in
      if r.0 == 0 then done ([], r.1) else with_char r.0 rest)

  unfoldable pub cstr : ℕ → Machine P → Outcome (Bytes × Machine P)
  unfolding read_text
  cstr address m = read_text 0x4000 address m

  -- Bytes from consecutive addresses, and to them.
  unfoldable pub read_all : ℕ → ℕ → Machine P → Outcome (Bytes × Machine P)
  read_all address zero m = done ([], m)
  read_all address (suc count) m =
      then_do (rd settings address m) (λ r. with_char r.0 (read_all (address + 1) count r.1))

module _ {P : Type 0} (settings : Settings) (peers : Peers P) where
  -- `count` words below `sp`, from the top; `sp - i` on 16 bits, for fewer than 65536 of them.
  unfoldable pub spend_stack : ℕ → ℕ → ℕ → Machine P → Outcome (Machine P)
  spend_stack sp i zero m = done m
  spend_stack sp i (suc count) m =
      then_do (wr settings peers (sp + 65536 - i) (0x76 + i % 2) m) (spend_stack sp (i + 1) count)

  -- The way into a DSS call, up to the call itself.
  unfoldable pub enter_dss : ℕ → ℕ → Machine P → Outcome (Machine P)
  unfolding spend_stack
  enter_dss fn sp m =
      if m.isa_open
      then failed isa_is_open
      else if (fn == 0x5b || fn == 0x5c) && (ltb 0x4000 sp && leb sp 0x8000)
      then failed console_stack
      else spend_stack sp 1 (or_default settings.dss_stack_bytes 48) m

  -- The way into a BIOS call.
  unfoldable pub enter_bios : ℕ → Machine P → Outcome (Machine P)
  unfolding spend_stack
  enter_bios sp m =
      if m.isa_open
      then failed isa_is_open
      else spend_stack sp 1 (or_default settings.dss_stack_bytes 48) m

  unfoldable pub write_all : ℕ → Bytes → Machine P → Outcome (Machine P)
  write_all address [] m = done m
  write_all address (b ∷ bs) m =
      then_do (wr settings peers address b m) (write_all (address + 1) bs)

  unfoldable pub write_cstr : ℕ → Bytes → Machine P → Outcome (Machine P)
  unfolding write_all
  write_cstr address text m =
      then_do (write_all address text m) (λ n. wr settings peers (address + length text) 0 n)
