-- ===== src/Machine/Session/Safety.antt =====
-- Whatever the program does, no window is left on a page that is gone.
use sprinter_3c509b.Base.{ℕ, ◌+◌, ◌%◌, not, Option, none, some, List, [], ◌∷◌, ◌==◌, if_both, Bytes}
use sprinter_3c509b.Card.{Peers}
use sprinter_3c509b.Machine.{Outcome, Settings, Machine, allocated}
use sprinter_3c509b.Machine.Console.{
  get_env, count_set, set_fails, assign, app_info, echo_key, clear_keys, scan_key,
}
use sprinter_3c509b.Machine.Disk.{
  Disk, DiskSettings, Answer, granted, refused, Verdict, close_file, read_file, write_file,
  move_pointer,
}
use sprinter_3c509b.Machine.Memory.{rd, wr}
use sprinter_3c509b.Machine.Pages.{set_win1, set_win2, set_win3, free_mem, emm_page}
use sprinter_3c509b.Machine.Ports.{io_read, io_write}
use sprinter_3c509b.Machine.Session.{
  Service, Access, open_named, create, close, delete, chdir, curdir, read, write, move, print_char,
  print_text, getmem, freemem, setwin1, setwin2, setwin3, environ, appinfo, clear_key, echo_input,
  time, settime, scankey, exit, load, input, store, output, emm, dss, Session, serve, step, run,
  exit_program, no_entries, with_text, answer_value, set_variable, serve_environ, deliver, taken,
  settle, with_machine, number_of, is_exit, back_to,
}
use sprinter_3c509b.Machine.Session.Calls.{
  io_write-Safely, get_mem-MemorySound, set_win1-Safely, set_win2-Safely, set_win3-Safely,
  free_mem-Safely,
}
use sprinter_3c509b.Machine.Session.Windows.{
  MemorySound, Safely, then_do-Safely, rd-Safely, wr-Safely,
}
use sprinter_3c509b.Machine.Stack.{
  enter_dss, enter_bios, ret, cstr, read_all, write_all, write_cstr,
}
use sprinter_3c509b.Machine.Session.Throws.{
  HasThrown, close_file-HasThrown, read_file-HasThrown, write_file-HasThrown,
  move_pointer-HasThrown, assign-HasThrown, app_info-HasThrown, clear_keys-HasThrown,
  echo_key-HasThrown, scan_key-HasThrown, unmoved,
}
use sprinter_3c509b.Machine.Session.OnStack.{
  ret-Safely, cstr-Safely, read_all-Safely, enter_dss-Safely, enter_bios-Safely, write_all-Safely,
  write_cstr-Safely,
}

module _ {P : Type 0} where
  settle-Safely :
      (s : Session P) (x : Outcome (Machine P))
      → Safely (λ m. m) x
      → Safely (λ r. r.1.machine) (settle s x)
  settle-Safely s x h = then_do-Safely (λ m. m) (λ r. r.1.machine) x _ h (λ m w. w)

  io_read-HasThrown : (port : ℕ) (m : Machine P) → HasThrown (io_read port m)
  unfolding io_read
  io_read-HasThrown port m = if_both HasThrown (port % 256 == 0x82) tt (
      if_both HasThrown (port % 256 == 0xa2) tt
        (if_both HasThrown (port % 256 == 0xc2) tt (if_both HasThrown (port % 256 == 0xe2) tt tt)))

  emm_page-HasThrown : (a b : ℕ) (m : Machine P) → HasThrown (emm_page a b m)
  unfolding emm_page
  emm_page-HasThrown a b m = if_both HasThrown (not (allocated m (a + b))) tt tt

  exit_program-Safely :
      (code : ℕ) (s : Session P)
      → MemorySound s.machine
      → Safely (λ r. r.1.machine) (exit_program code s)
  unfolding exit_program
  exit_program-Safely code s w =
      let Ends = Safely {P = P} {A = Answer ℕ × Session P} (λ r. r.1.machine) in
      if_both Ends s.machine.isa_open tt (
        if_both Ends (not (no_entries s.machine.allocations)) tt
          (if_both Ends (not (no_entries s.disk.open_files)) tt w))

module _ {P : Type 0} (settings : Settings) (o : DiskSettings) (peers : Peers P) where
  with_text-Safely :
      (at : ℕ) (s : Session P) (call : Bytes → Answer ℕ × Disk)
      → MemorySound s.machine
      → Safely (λ r. r.1.machine) (with_text settings o peers at s call)
  with_text-Safely at s call w =
      then_do-Safely (λ r. r.1) (λ r. r.1.machine) (cstr settings at s.machine) _
        (cstr-Safely settings at s.machine w) (λ r v. v)

  deliver-Safely :
      (at : ℕ) (s : Session P)
      → MemorySound s.machine
      → (r : Answer Bytes × Disk) → Safely (λ r. r.1.machine) (deliver settings o peers at s r)
  deliver-Safely at s w (refused error, d) = w
  deliver-Safely at s w (granted bytes, d) =
      then_do-Safely (λ m. m) (λ r. r.1.machine) (write_all settings peers at bytes s.machine) _
        (write_all-Safely settings peers at bytes s.machine w) (λ m v. v)

  taken-MemorySound :
      (s : Session P) (m : Machine P)
      → MemorySound s.machine
      → MemorySound m
      → (r : Verdict × Disk) → MemorySound (taken settings o peers s m r).1.machine
  taken-MemorySound s m w v (refused error, d) = w
  taken-MemorySound s m w v (granted _, d) = v

  answer_value-Safely :
      (to : ℕ) (s : Session P) (value : Option Bytes)
      → MemorySound s.machine
      → Safely (λ r. r.1.machine) (answer_value settings o peers to s value)
  answer_value-Safely to s none w = w
  answer_value-Safely to s (some value) w =
      then_do-Safely (λ m. m) (λ r. r.1.machine) (write_cstr settings peers to value s.machine) _
        (write_cstr-Safely settings peers to value s.machine w) (λ m v. v)

  set_variable-Safely :
      (at : ℕ) (s : Session P)
      → MemorySound s.machine
      → Safely (λ r. r.1.machine) (set_variable settings o peers at s)
  set_variable-Safely at s w =
      if_both (Safely {P = P} {A = Answer ℕ × Session P} (λ r. r.1.machine))
        (set_fails o.console (count_set s.console)) w
        (then_do-Safely (λ r. r.1) (λ r. r.1.machine) (cstr settings at s.machine) _
          (cstr-Safely settings at s.machine w)
          (λ r v.
            unmoved (λ r. r.1.machine) (assign r.0 (count_set s.console)) _
              (assign-HasThrown r.0 (count_set s.console)) (λ d. v)))

  serve_environ-Safely :
      (sub at to : ℕ) (s : Session P)
      → MemorySound s.machine
      → Safely (λ r. r.1.machine) (serve_environ settings o peers sub at to s)
  serve_environ-Safely sub at to s w =
      let Ends = Safely {P = P} {A = Answer ℕ × Session P} (λ r. r.1.machine) in
      if_both Ends (sub == 1)
        (then_do-Safely (λ r. r.1) (λ r. r.1.machine) (cstr settings at s.machine) _
          (cstr-Safely settings at s.machine w)
          (λ r v. answer_value-Safely to (with_machine s r.1) (get_env r.0 s.console) v))
        (if_both Ends (sub == 2) (set_variable-Safely at s w) tt)

  serve-Safely :
      (service : Service) (s : Session P)
      → MemorySound s.machine
      → Safely (λ r. r.1.machine) (serve settings o peers service s)
  unfolding serve
  serve-Safely (open_named mode at) s w = with_text-Safely at s _ w
  serve-Safely (create only_new at) s w = with_text-Safely at s _ w
  serve-Safely (delete at) s w = with_text-Safely at s _ w
  serve-Safely (chdir at) s w = with_text-Safely at s _ w
  serve-Safely (curdir at) s w =
      settle-Safely s (write_cstr settings peers at s.disk.current_dir s.machine)
        (write_cstr-Safely settings peers at s.disk.current_dir s.machine w)
  serve-Safely (close handle) s w =
      unmoved (λ r. r.1.machine) (close_file o handle s.disk) _
        (close_file-HasThrown o handle s.disk) (λ r. w)
  serve-Safely (read handle at count) s w =
      unmoved (λ r. r.1.machine) (read_file o handle count s.disk) _
        (read_file-HasThrown o handle count s.disk) (deliver-Safely at s w)
  serve-Safely (write handle at count) s w =
      then_do-Safely (λ r. r.1) (λ r. r.1.machine) (read_all settings at count s.machine) _
        (read_all-Safely settings at count s.machine w)
        (λ r v.
          unmoved (λ r. r.1.machine) (write_file o handle r.0 s.disk) _
            (write_file-HasThrown o handle r.0 s.disk) (taken-MemorySound s r.1 w v))
  serve-Safely (move whence raw handle) s w =
      unmoved (λ r. r.1.machine) (move_pointer o whence raw handle s.disk) _
        (move_pointer-HasThrown o whence raw handle s.disk) (λ r. w)
  serve-Safely (print_char c) s w = w
  serve-Safely (print_text at) s w =
      then_do-Safely (λ r. r.1) (λ r. r.1.machine) (cstr settings at s.machine) _
        (cstr-Safely settings at s.machine w) (λ r v. v)
  serve-Safely (getmem count) s w = get_mem-MemorySound settings count s.machine w
  serve-Safely (freemem block) s w =
      settle-Safely s (free_mem block s.machine) (free_mem-Safely block s.machine w)
  serve-Safely (setwin1 page) s w =
      settle-Safely s (set_win1 settings page s.machine) (set_win1-Safely settings page s.machine w)
  serve-Safely (setwin2 page) s w =
      settle-Safely s (set_win2 settings page s.machine) (set_win2-Safely settings page s.machine w)
  serve-Safely (setwin3 page) s w =
      settle-Safely s (set_win3 page s.machine) (set_win3-Safely page s.machine w)
  serve-Safely (environ sub at to) s w = serve_environ-Safely sub at to s w
  serve-Safely (appinfo sub at) s w =
      unmoved (λ r. r.1.machine) (app_info o.console sub) _ (app_info-HasThrown o.console sub)
        (λ text.
          settle-Safely s (write_cstr settings peers at text s.machine)
            (write_cstr-Safely settings peers at text s.machine w))
  serve-Safely (clear_key sub) s w =
      unmoved (λ r. r.1.machine) (clear_keys o.console sub) _ (clear_keys-HasThrown o.console sub)
        (λ key. w)
  serve-Safely echo_input s w =
      unmoved (λ r. r.1.machine) (echo_key s.console s.console.echo_keys) _
        (echo_key-HasThrown s.console s.console.echo_keys) (λ r. w)
  serve-Safely time s w = w
  serve-Safely (settime moment) s w = w
  serve-Safely (scankey http_bytes ftp_bytes) s w =
      unmoved (λ r. r.1.machine) (scan_key o.console http_bytes ftp_bytes s.console) _
        (scan_key-HasThrown o.console http_bytes ftp_bytes s.console) (λ r. w)
  serve-Safely (exit code) s w = exit_program-Safely code s w

  back_to-Safely :
      (sp : ℕ) (served : Outcome (Answer ℕ × Session P))
      → Safely (λ r. r.1.machine) served
      → Safely (λ r. r.1.machine) (back_to settings o peers sp served)
  unfolding back_to
  back_to-Safely sp served h =
      then_do-Safely (λ r. r.1.machine) (λ r. r.1.machine) served _ h
        (λ r w.
          then_do-Safely (λ p. p.1) (λ r. r.1.machine) (ret settings sp r.1.machine) _
            (ret-Safely settings sp r.1.machine w) (λ p v. v))

  step-Safely :
      (access : Access) (s : Session P)
      → MemorySound s.machine
      → Safely (λ r. r.1.machine) (step settings o peers access s)
  unfolding step
  step-Safely (load at) s w =
      then_do-Safely (λ r. r.1) (λ r. r.1.machine) (rd settings at s.machine) _
        (rd-Safely settings at s.machine w) (λ r v. v)
  step-Safely (store at v) s w =
      settle-Safely s (wr settings peers at v s.machine) (wr-Safely settings peers at v s.machine w)
  step-Safely (input port) s w =
      unmoved (λ r. r.1.machine) (io_read port s.machine) _ (io_read-HasThrown port s.machine)
        (λ r. w)
  step-Safely (output port v) s w =
      settle-Safely s (io_write port v s.machine) (io_write-Safely port v s.machine w)
  step-Safely (emm sp a b) s w =
      then_do-Safely (λ m. m) (λ r. r.1.machine) (enter_bios settings peers sp s.machine) _
        (enter_bios-Safely settings peers sp s.machine w)
        (λ m v.
          back_to-Safely sp _
            (unmoved (λ r. r.1.machine) (emm_page a b m) _ (emm_page-HasThrown a b m) (λ r. v)))
  step-Safely (dss sp service) s w =
      then_do-Safely (λ m. m) (λ r. r.1.machine)
        (enter_dss settings peers (number_of service) sp s.machine) _
        (enter_dss-Safely settings peers (number_of service) sp s.machine w)
        (λ m v.
          let served = serve-Safely service (with_machine s m) v in
          if_both (Safely {P = P} {A = Answer ℕ × Session P} (λ r. r.1.machine)) (is_exit service)
            served (back_to-Safely sp _ served))

  -- Whatever the program does, every window maps a page that is allocated, or the machine's own
  -- memory, and no access meets a page that is gone. It starts with every window like that, and
  -- with every page in a block that is allocated.
  pub run-Safely :
      (accesses : List Access) (s : Session P)
      → MemorySound s.machine
      → Safely (λ t. t.machine) (run settings o peers accesses s)
  unfolding run
  run-Safely [] s w = w
  run-Safely (access ∷ accesses) s w =
      then_do-Safely (λ r. r.1.machine) (λ t. t.machine) (step settings o peers access s) _
        (step-Safely access s w) (λ r v. run-Safely accesses r.1 v)
