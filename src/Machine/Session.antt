-- ===== src/Machine/Session.antt =====
-- The DSS calls as the program makes them, with their effects on memory and disk, and EXIT.
pub mod Tables
pub mod Blocks
pub mod Windows
pub mod Calls
pub mod Throws
pub mod OnStack
pub mod Safety
pub mod Exit
use sprinter_3c509b.Base.{
  ℕ, ◌+◌, Bool, true, false, not, Option, none, some, List, [], ◌∷◌, ◌++◌, if◌then◌else◌, ◌==◌,
  length, Bytes, or_nonzero,
}
use sprinter_3c509b.Card.{Peers}
use sprinter_3c509b.Machine.{
  Outcome, done, failed, then_do, isa_is_open, unreleased_pages, unclosed_files,
  unknown_subfunction, Settings, Machine, Table,
}
use sprinter_3c509b.Machine.Clock.{systime}
use sprinter_3c509b.Machine.Console.{
  Moment, Registers, Console, get_env, count_set, set_fails, assign, app_info, echo_key, clear_keys,
  note_time, scan_key,
}
use sprinter_3c509b.Machine.Disk.{
  Disk, DiskSettings, Answer, granted, refused, Verdict, open_file, close_file, read_file,
  create_file, delete_file, write_file, move_pointer, change_dir,
}
use sprinter_3c509b.Machine.Memory.{rd, wr}
use sprinter_3c509b.Machine.Pages.{get_mem, set_win1, set_win2, set_win3, free_mem, emm_page}
use sprinter_3c509b.Machine.Ports.{io_read, io_write}
use sprinter_3c509b.Machine.Stack.{
  enter_dss, enter_bios, ret, cstr, write_all, read_all, write_cstr,
}

-- The DSS functions, with what the registers hold; SCANKEY comes with the bytes that the servers of
-- HTTP and FTP have sent so far, which the peers of the card count.
pub data Service : Type 0 where
  open_named create : ℕ → ℕ → Service
  close delete chdir curdir : ℕ → Service
  read write : ℕ → ℕ → ℕ → Service
  move : ℕ → ℕ → ℕ → Service
  print_char print_text : ℕ → Service
  getmem freemem setwin1 setwin2 setwin3 : ℕ → Service
  environ : ℕ → ℕ → ℕ → Service
  appinfo : ℕ → ℕ → Service
  clear_key : ℕ → Service
  echo_input time : Service
  settime : Moment → Service
  scankey : ℕ → ℕ → Service
  exit : ℕ → Service

-- What the processor does to the machine. `emm` and `dss` are the calls that reach the harness, with
-- the stack pointer: WIN0 maps no page then.
pub data Access : Type 0 where
  load input : ℕ → Access
  store output : ℕ → ℕ → Access
  emm : ℕ → ℕ → ℕ → Access
  dss : ℕ → Service → Access

pub record Session (P : Type 0) : Type 0 where
  pub machine : Machine P
  pub disk : Disk
  pub console : Console
  pub stdout : Bytes
  pub exit_code : Option ℕ

abbrev pub number_of : Service → ℕ
number_of (print_char c) = 0x5b
number_of (print_text at) = 0x5c
number_of _ = 0

abbrev pub is_exit : Service → Bool
is_exit (exit code) = true
is_exit _ = false

abbrev pub no_entries {ℓ} : {A : Type ℓ} → Table A → Bool
no_entries [] = true
no_entries (_ ∷ _) = false

-- An answer that returns nothing has 0 for its value.
abbrev pub valued : Verdict → Answer ℕ
valued (granted _) = granted 0
valued (refused error) = refused error

module _ {P : Type 0} where
  abbrev pub with_machine : Session P → Machine P → Session P
  with_machine s m = record s { machine = m }

  abbrev pub with_disk : Session P → Machine P → Answer ℕ × Disk → Answer ℕ × Session P
  with_disk s m r = (r.0, record s { machine = m; disk = r.1 })

  abbrev pub settle : Session P → Outcome (Machine P) → Outcome (Answer ℕ × Session P)
  settle s result = then_do result (λ m. done (granted 0, with_machine s m))

  -- EXIT: everything is closed and given back.
  unfoldable pub exit_program : ℕ → Session P → Outcome (Answer ℕ × Session P)
  exit_program code s =
      if s.machine.isa_open
      then failed isa_is_open
      else if not (no_entries s.machine.allocations)
      then failed unreleased_pages
      else if not (no_entries s.disk.open_files)
      then failed unclosed_files
      else done (granted 0, record s { exit_code = some code })

module _ {P : Type 0} (settings : Settings) (o : DiskSettings) (peers : Peers P) where
  -- The bytes that READ found, in memory; with an error nothing is written.
  abbrev pub deliver : ℕ → Session P → Answer Bytes × Disk → Outcome (Answer ℕ × Session P)
  deliver at s (refused error, d) = done (refused error, record s { disk = d })
  deliver at s (granted bytes, d) =
      then_do (write_all settings peers at bytes s.machine)
        (λ m. done (granted (length bytes), record s { machine = m; disk = d }))

  -- What WRITE leaves: memory is not read where it refuses.
  abbrev pub taken : Session P → Machine P → Verdict × Disk → Answer ℕ × Session P
  taken s m (refused error, d) = (refused error, record s { disk = d })
  taken s m (granted _, d) = (granted 0, record s { machine = m; disk = d })

  abbrev pub with_text : ℕ → Session P → (Bytes → Answer ℕ × Disk) → Outcome (Answer ℕ × Session P)
  with_text at s call =
      then_do (cstr settings at s.machine) (λ r. done (with_disk s r.1 (call r.0)))

  -- ENVIRON: GETENV writes the value, SETENV reads the assignment where it is not to fail.
  abbrev pub answer_value : ℕ → Session P → Option Bytes → Outcome (Answer ℕ × Session P)
  answer_value to s none = done (granted 0, s)
  answer_value to s (some value) =
      then_do (write_cstr settings peers to value s.machine)
        (λ m. done (granted 0xff, with_machine s m))

  abbrev pub set_variable : ℕ → Session P → Outcome (Answer ℕ × Session P)
  set_variable at s =
      let c = count_set s.console in
      if set_fails o.console c
      then done (refused 1, record s { console = c })
      else then_do (cstr settings at s.machine) (λ r.
        then_do (assign r.0 c) (λ d. done (granted 0, record s { machine = r.1; console = d })))

  abbrev pub serve_environ : ℕ → ℕ → ℕ → Session P → Outcome (Answer ℕ × Session P)
  serve_environ sub at to s =
      if sub == 1
      then then_do (cstr settings at s.machine)
          (λ r. answer_value to (with_machine s r.1) (get_env r.0 s.console))
      else if sub == 2
      then set_variable at s
      else failed unknown_subfunction

  -- A key that is typed at ECHOKEY is printed.
  abbrev pub echoed : Session P → Registers × Console → Answer ℕ × Session P
  echoed s r = (granted r.0.a, record s { console = r.1; stdout = s.stdout ++ (r.0.a ∷ []) })

  abbrev pub set_clock : Moment → Session P → Answer ℕ × Session P
  set_clock moment s = (
    if o.console.set_time_fail
        then refused (or_nonzero (some o.console.set_time_error) 1)
        else granted 0,
    record s { console = note_time moment s.console },
  )

  unfoldable pub serve : Service → Session P → Outcome (Answer ℕ × Session P)
  unfolding cstr write_all read_all write_cstr exit_program get_env assign systime scan_key
  serve (open_named mode at) s = with_text at s (λ name. open_file o mode name s.disk)
  serve (create only_new at) s =
      with_text at s (λ name. create_file o (only_new == 0x0b) name s.disk)
  serve (delete at) s =
      with_text at s (λ name. let r = delete_file o name s.disk in (valued r.0, r.1))
  serve (chdir at) s =
      with_text at s (λ name. let r = change_dir o name s.disk in (valued r.0, r.1))
  serve (curdir at) s = settle s (write_cstr settings peers at s.disk.current_dir s.machine)
  serve (close handle) s =
      then_do (close_file o handle s.disk) (λ r. done (with_disk s s.machine (valued r.0, r.1)))
  serve (read handle at count) s = then_do (read_file o handle count s.disk) (deliver at s)
  serve (write handle at count) s =
      then_do (read_all settings at count s.machine)
        (λ r. then_do (write_file o handle r.0 s.disk) (λ w. done (taken s r.1 w)))
  serve (move whence raw handle) s =
      then_do (move_pointer o whence raw handle s.disk) (λ r. done (with_disk s s.machine r))
  serve (print_char c) s = done (granted 0, record s { stdout = s.stdout ++ (c ∷ []) })
  serve (print_text at) s =
      then_do (cstr settings at s.machine)
        (λ r. done (granted 0, record s { machine = r.1; stdout = s.stdout ++ r.0 }))
  serve (getmem count) s =
      let r = get_mem settings count s.machine in done (granted r.0, with_machine s r.1)
  serve (freemem block) s = settle s (free_mem block s.machine)
  serve (setwin1 page) s = settle s (set_win1 settings page s.machine)
  serve (setwin2 page) s = settle s (set_win2 settings page s.machine)
  serve (setwin3 page) s = settle s (set_win3 page s.machine)
  serve (environ sub at to) s = serve_environ sub at to s
  serve (appinfo sub at) s =
      then_do (app_info o.console sub)
        (λ text. settle s (write_cstr settings peers at text s.machine))
  serve (clear_key sub) s = then_do (clear_keys o.console sub) (λ key. done (granted key, s))
  serve echo_input s = then_do (echo_key s.console s.console.echo_keys) (λ r. done (echoed s r))
  serve time s =
      let r = systime o.console.clock s.console.clock in
      done (granted 0, record s { console = record s.console { clock = r.1 } })
  serve (settime moment) s = done (set_clock moment s)
  serve (scankey http_bytes ftp_bytes) s =
      then_do (scan_key o.console http_bytes ftp_bytes s.console)
        (λ r. done (granted r.0.a, record s { console = r.1 }))
  serve (exit code) s = exit_program code s

  -- The return to the caller, by the address on the stack.
  unfoldable pub back_to : ℕ → Outcome (Answer ℕ × Session P) → Outcome (Answer ℕ × Session P)
  back_to sp served =
      then_do served
        (λ r. then_do (ret settings sp r.1.machine) (λ p. done (r.0, with_machine r.1 p.1)))

  unfoldable pub step : Access → Session P → Outcome (Answer ℕ × Session P)
  unfolding serve enter_dss enter_bios back_to
  step (load at) s =
      then_do (rd settings at s.machine) (λ r. done (granted r.0, with_machine s r.1))
  step (store at v) s = settle s (wr settings peers at v s.machine)
  step (input port) s = then_do (io_read port s.machine) (λ v. done (granted v, s))
  step (output port v) s = settle s (io_write port v s.machine)
  step (emm sp a b) s =
      then_do (enter_bios settings peers sp s.machine)
        (λ m. back_to sp (then_do (emm_page a b m) (λ page. done (granted page, with_machine s m))))
  step (dss sp service) s =
      then_do (enter_dss settings peers (number_of service) sp s.machine) (λ m.
        let served = serve service (with_machine s m) in
        if is_exit service then served else back_to sp served)

  -- One thing after the other, up to the first that throws.
  unfoldable pub run : List Access → Session P → Outcome (Session P)
  unfolding step
  run [] s = done s
  run (access ∷ accesses) s = then_do (step access s) (λ r. run accesses r.1)
