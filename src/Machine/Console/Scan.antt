-- ===== src/Machine/Console/Scan.antt =====
-- The simulated key comes at its scan, and at no other.
use sprinter_3c509b.Base.{
  ℕ, ◌+◌, ◌≡◌, refl, sym, ap, ◌∙◌, Bool, true, false, not, ◌&&◌, Option, none, some, leb, ◌==◌,
  if◌then◌else◌, if_true, if_false, Bool-cases, inl, inr, or_nonzero, arith,
}
use sprinter_3c509b.Machine.{done}
use sprinter_3c509b.Machine.Console.{
  ConsoleSettings, Console, Registers, Simulated, no_key, key_registers, with_console, key_ready,
  scan_found, scan_key,
}

-- The scan at which the key is due.
abbrev pub due : ConsoleSettings → ℕ
due o = or_nonzero (some o.key_at_scan) 1

-- The key has been delivered exactly if its scan is past.
abbrev pub IsOnTime : ConsoleSettings → Console → Type 0
IsOnTime o c = c.key_delivered ≡ leb (due o) c.scan_count

abbrev ready_ftp : ℕ → ℕ → ℕ → Option ℕ → Bool
ready_ftp scan at bytes none = scan == at
ready_ftp scan at bytes (some n) = leb n bytes

abbrev ready_with : ℕ → ℕ → ℕ → ℕ → Option ℕ → Option ℕ → Bool
ready_with scan at http_bytes ftp_bytes by_ftp none = ready_ftp scan at ftp_bytes by_ftp
ready_with scan at http_bytes ftp_bytes by_ftp (some n) = leb n http_bytes

late : (at n : ℕ) → n + 1 == at ≡ true → leb at n ≡ false
late at n h = ground arith

now : (at n : ℕ) → n + 1 == at ≡ true → leb at (n + 1) ≡ true
now at n h = ground arith

same : (at n : ℕ) → n + 1 == at ≡ false → leb at n ≡ leb at (n + 1)
same at n h = ground arith

both_true : (a b : Bool) → a ≡ false → b ≡ true → not a && b ≡ true
both_true a b h k = ground arith

one_false : (a b : Bool) → b ≡ false → a && b ≡ false
one_false a b h = ground arith

-- A scan of a console on time returns the simulated key if it is the one at which the key is due,
-- and no key otherwise, and leaves the console on time, with one more scan counted. The key is one
-- that the harness knows, and the scenario ties it to a scan.
pub scan_key-IsOnTime :
    (o : ConsoleSettings) (http_bytes ftp_bytes : ℕ) (c : Console) (key : Simulated) (r : Registers)
    → o.key ≡ some key
    → key_registers key ≡ done r
    → o.key_after_http_bytes ≡ none
    → o.key_after_ftp_bytes ≡ none
    → IsOnTime o c
    → (d : Console) × (scan_key o http_bytes ftp_bytes c
        ≡ done (if c.scan_count + 1 == due o then r else no_key, d))
      × IsOnTime o d
      × (d.scan_count ≡ c.scan_count + 1)
unfolding scan_key
scan_key-IsOnTime o http ftp c key r has known no_http no_ftp h =
    let n = c.scan_count + 1 in
    let scanned = record c { scan_count = n } in
    let ready : key_ready o http ftp n ≡ n == due o =
      ap (ready_with n (due o) http ftp o.key_after_ftp_bytes) no_http
      ∙ ap (ready_ftp n (due o) ftp) no_ftp in
    let found = ap (scan_found (key_ready o http ftp n) scanned) has in
    elim (Bool-cases (n == due o)) [
      | inl e ↦ (
        record scanned { key_delivered = true },
        found
            ∙ (if_true (not c.key_delivered && key_ready o http ftp n) _ (done (no_key, scanned)) (
                  both_true c.key_delivered (key_ready o http ftp n)
                    (h ∙ late (due o) c.scan_count e) (ready ∙ e))
                ∙ (ap (with_console (record scanned { key_delivered = true })) known
                    ∙ ap (λ (k : Registers). done (k, record scanned { key_delivered = true }))
                        (sym (if_true (n == due o) r no_key e)))),
        sym (now (due o) c.scan_count e),
        refl,
      )
      | inr e ↦ (
        scanned,
        found
            ∙ (if_false (not c.key_delivered && key_ready o http ftp n) _ (done (no_key, scanned))
                  (one_false (not c.key_delivered) (key_ready o http ftp n) (ready ∙ e))
                ∙ ap (λ (k : Registers). done (k, scanned))
                    (sym (if_false (n == due o) r no_key e))),
        h ∙ same (due o) c.scan_count e,
        refl,
      )
    ]
