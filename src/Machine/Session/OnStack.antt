-- ===== src/Machine/Session/OnStack.antt =====
-- The strings and the stack of a call keep every window mapped.
use sprinter_3c509b.Base.{
  ℕ, zero, suc, ◌+◌, ◌-◌, ◌%◌, ◌&&◌, ◌||◌, [], ◌∷◌, ltb, leb, ◌==◌, if_both, Bytes, or_default,
  length,
}
use sprinter_3c509b.Card.{Peers}
use sprinter_3c509b.Machine.{Settings, Machine}
use sprinter_3c509b.Machine.Memory.{rd, wr}
use sprinter_3c509b.Machine.Session.Windows.{
  MemorySound, Safely, then_do-Safely, rd-Safely, wr-Safely,
}
use sprinter_3c509b.Machine.Stack.{
  spend_stack, enter_dss, enter_bios, ret, read_text, cstr, read_all, write_all, write_cstr,
}

module _ {P : Type 0} (settings : Settings) where
  pub read_text-Safely :
      (fuel address : ℕ) (m : Machine P)
      → MemorySound m
      → Safely (λ r. r.1) (read_text settings fuel address m)
  unfolding read_text
  read_text-Safely zero address m w = tt
  read_text-Safely (suc fuel) address m w =
      then_do-Safely (λ r. r.1) (λ r. r.1) (rd settings address m) _
        (rd-Safely settings address m w)
        (λ r v. if_both (Safely (λ r. r.1)) (r.0 == 0) v (
          then_do-Safely (λ r. r.1) (λ r. r.1) (read_text settings fuel (address + 1) r.1) _
            (read_text-Safely fuel (address + 1) r.1 v) (λ s u. u)))

  pub ret-Safely : (sp : ℕ) (m : Machine P) → MemorySound m → Safely (λ r. r.1) (ret settings sp m)
  unfolding ret
  ret-Safely sp m w =
      then_do-Safely (λ r. r.1) (λ r. r.1) (rd settings sp m) _ (rd-Safely settings sp m w)
        (λ lo v.
          then_do-Safely (λ r. r.1) (λ r. r.1) (rd settings ((sp + 1) % 65536) lo.1) _
            (rd-Safely settings ((sp + 1) % 65536) lo.1 v) (λ hi u. u))

  pub cstr-Safely :
      (address : ℕ) (m : Machine P) → MemorySound m → Safely (λ r. r.1) (cstr settings address m)
  unfolding cstr
  cstr-Safely address m w = read_text-Safely 0x4000 address m w

  pub read_all-Safely :
      (address count : ℕ) (m : Machine P)
      → MemorySound m
      → Safely (λ r. r.1) (read_all settings address count m)
  unfolding read_all
  read_all-Safely address zero m w = w
  read_all-Safely address (suc count) m w =
      then_do-Safely (λ r. r.1) (λ r. r.1) (rd settings address m) _
        (rd-Safely settings address m w)
        (λ r v.
          then_do-Safely (λ r. r.1) (λ r. r.1) (read_all settings (address + 1) count r.1) _
            (read_all-Safely (address + 1) count r.1 v) (λ s u. u))

module _ {P : Type 0} (settings : Settings) (peers : Peers P) where
  pub spend_stack-Safely :
      (sp i count : ℕ) (m : Machine P)
      → MemorySound m
      → Safely (λ r. r) (spend_stack settings peers sp i count m)
  unfolding spend_stack
  spend_stack-Safely sp i zero m w = w
  spend_stack-Safely sp i (suc count) m w =
      then_do-Safely (λ r. r) (λ r. r) (wr settings peers (sp + 65536 - i) (0x76 + i % 2) m)
        (spend_stack settings peers sp (i + 1) count)
        (wr-Safely settings peers (sp + 65536 - i) (0x76 + i % 2) m w)
        (spend_stack-Safely sp (i + 1) count)

  pub enter_dss-Safely :
      (fn sp : ℕ) (m : Machine P)
      → MemorySound m
      → Safely (λ r. r) (enter_dss settings peers fn sp m)
  unfolding enter_dss
  enter_dss-Safely fn sp m w = if_both (Safely {P = P} {A = Machine P} (λ r. r)) m.isa_open tt (
      if_both (Safely {P = P} {A = Machine P} (λ r. r))
        ((fn == 0x5b || fn == 0x5c) && (ltb 0x4000 sp && leb sp 0x8000)) tt
        (spend_stack-Safely sp 1 (or_default settings.dss_stack_bytes 48) m w))

  pub enter_bios-Safely :
      (sp : ℕ) (m : Machine P) → MemorySound m → Safely (λ r. r) (enter_bios settings peers sp m)
  unfolding enter_bios
  enter_bios-Safely sp m w =
      if_both (Safely {P = P} {A = Machine P} (λ r. r)) m.isa_open tt
        (spend_stack-Safely sp 1 (or_default settings.dss_stack_bytes 48) m w)

  pub write_all-Safely :
      (address : ℕ) (bytes : Bytes) (m : Machine P)
      → MemorySound m
      → Safely (λ r. r) (write_all settings peers address bytes m)
  unfolding write_all
  write_all-Safely address [] m w = w
  write_all-Safely address (b ∷ bs) m w =
      then_do-Safely (λ r. r) (λ r. r) (wr settings peers address b m)
        (write_all settings peers (address + 1) bs) (wr-Safely settings peers address b m w)
        (write_all-Safely (address + 1) bs)

  pub write_cstr-Safely :
      (address : ℕ) (text : Bytes) (m : Machine P)
      → MemorySound m
      → Safely (λ r. r) (write_cstr settings peers address text m)
  unfolding write_cstr
  write_cstr-Safely address text m w =
      then_do-Safely (λ r. r) (λ r. r) (write_all settings peers address text m) _
        (write_all-Safely address text m w) (wr-Safely settings peers (address + length text) 0)
