-- ===== src/Machine/Tests.antt =====
-- The theorems on the machine at concrete runs.
use sprinter_3c509b.Base.{
  ℕ, true, false, none, some, List, [], ◌∷◌, Bytes, AllBytes, AllBytes-append, AllBytes-replicate,
  replicate, ◌++◌, ◌≡◌, refl, arith, if◌then◌else◌, inl,
}
use sprinter_3c509b.Card.{Peers}
use sprinter_3c509b.Card.New.{Setup, new_card}
use sprinter_3c509b.Machine.{Machine, Settings, Outcome, done, failed, unknown_block, blank}
use sprinter_3c509b.Machine.Clock.{Clock, ClockSettings}
use sprinter_3c509b.Machine.Console.{
  ConsoleSettings, Console, Registers, escape, assign, get_env, scan_key,
}
use sprinter_3c509b.Machine.Console.Environment.{read_back, assign-get_env}
use sprinter_3c509b.Machine.Console.Scan.{IsOnTime, scan_key-IsOnTime}
use sprinter_3c509b.Machine.Disk.{
  Disk, DiskSettings, OpenFile, Answer, granted, write_file, move_pointer, read_file,
}
use sprinter_3c509b.Machine.Disk.RoundTrip.{write_file-read_file}
use sprinter_3c509b.Machine.Load.{image_of, start_machine}
use sprinter_3c509b.Machine.Load.Header.{FitsMemory, image_of-FitsMemory}
use sprinter_3c509b.Machine.Memory.{rd, wr, counted}
use sprinter_3c509b.Machine.Memory.Cells.{Cell, cell_of, content, same_cell, wr-rd_cells}
use sprinter_3c509b.Machine.Pages.Free.{free_mem-free_mem}
use sprinter_3c509b.Machine.Pages.{get_mem, set_win2, free_mem}
use sprinter_3c509b.Machine.Stack.{ret}
use sprinter_3c509b.Peer.Text.{codes}
use sprinter_3c509b.Machine.Session.{
  Session, Access, dss, exit, getmem, freemem, setwin2, store, load, run, step,
}
use sprinter_3c509b.Machine.Session.Exit.{NothingLeft, run-exit}
use sprinter_3c509b.Machine.Session.Safety.{run-Safely}
use sprinter_3c509b.Machine.Session.Windows.{MemorySound, Safely}

abbrev setup : Setup
setup = record {
  scenario = record {
    tx_never_complete = false;
    tx_completion_status = none;
    tx_completion_delay_reads = 0;
    tx_stale_statuses = [];
    tx_free_blocked = false;
    tx_free_delay_reads = 0;
    rx_fifo_bytes = none;
  };
  card_present = true;
  base = none;
  eeprom_base = none;
  mac = none;
  eeprom_patch = [];
  tx_available = none;
  rx_frames = [];
  link = true;
  link_delay = 0;
}

abbrev settings : Settings
settings = record {
  card_slot = 1;
  id_port = none;
  fill = blank;
  load_address = 0x4000;
  dss_stack_bytes = some 2;
}

abbrev peers : Peers ℕ
peers = record { respond = λ frame n. (n, []); credit_client_ack = λ frame n. n }

abbrev pub machine : Machine ℕ
machine = start_machine settings none [] (new_card setup 0)

abbrev disk : Disk
disk = record {
  files = [];
  open_files = [];
  next_handle = 4;
  current_dir = 67 ∷ 58 ∷ 92 ∷ [];
  read_calls = 0;
  write_calls = 0;
  close_calls = 0;
  total_written = 0;
}

abbrev console_settings : ConsoleSettings
console_settings = record {
  args = [];
  app_dir = [];
  env_fail_at = 0;
  prompt_key = [];
  set_time_fail = false;
  set_time_error = 0;
  key = some escape;
  key_at_scan = 2;
  key_after_http_bytes = none;
  key_after_ftp_bytes = none;
  clock = record { freeze_after_reads = none; step_milliseconds = none };
}

abbrev console : Console
console = record {
  environment = [];
  env_set_count = 0;
  echo_keys = [];
  echo_key_reads = 0;
  set_time_calls = [];
  scan_count = 1;
  key_delivered = false;
  clock = record { milliseconds = 0; reads = 0 };
}

abbrev disk_settings : DiskSettings
disk_settings = record {
  open_error = none;
  create_error = none;
  close_fail_at = none;
  read_fail_at = none;
  write_fail_at = none;
  read_max = 0;
  disk_full_after = none;
  seek_fail = false;
  missing_dirs = [];
  console = console_settings;
}

abbrev session : Session ℕ
session = record {
  machine = machine;
  disk = disk;
  console = console;
  stdout = [];
  exit_code = none;
}

-- A page is taken, mapped, written and read, and given back.
abbrev accesses : List Access
accesses =
    dss 0x4000 (getmem 1)
    ∷ dss 0x4000 (setwin2 16)
    ∷ store 0x8000 7
    ∷ load 0x8000
    ∷ dss 0x4000 (freemem 16)
    ∷ []

starts_sound : MemorySound machine
unfolding start_machine
starts_sound = record {
  first = tt;
  second = tt;
  third = tt;
  fourth = tt;
  covered = λ page h. absurd (none_there h);
}
  where
    none_there : false ≡ true → ⊥
    none_there h = ground arith

run-Safely_example : Safely (λ t. t.machine) (run settings disk_settings peers accesses session)
run-Safely_example = run-Safely settings disk_settings peers accesses session starts_sound

abbrev last_of : Outcome (Session ℕ) → Session ℕ
last_of (done s) = s
last_of _ = session

abbrev exit_of : Outcome (Answer ℕ × Session ℕ) → Answer ℕ × Session ℕ
exit_of (done r) = r
exit_of _ = (granted 1, session)

-- Where it ends, and what is left when it exits.
abbrev ended : Session ℕ
ended = last_of (run settings disk_settings peers accesses session)

abbrev exited : Answer ℕ × Session ℕ
exited = exit_of (step settings disk_settings peers (dss 0x4000 (exit 0)) ended)

run-exit_example : NothingLeft exited.1
unfolding run start_machine new_card wr rd get_mem set_win2 free_mem ret
run-exit_example =
    run-exit settings disk_settings peers accesses session ended 0x4000 0 exited starts_sound refl
      refl

abbrev open_file : OpenFile
open_file = record { name = 65 ∷ []; contents = 9 ∷ []; offset = 3 }

abbrev disk_open : Disk
disk_open = record disk { open_files = (4, open_file) ∷ [] }

write_file-read_file_example :
    (w p r : Disk) × (write_file disk_settings 4 (1 ∷ 2 ∷ []) disk_open ≡ done (granted tt, w))
    × (move_pointer disk_settings 0 3 4 w ≡ done (granted 3, p))
    × (read_file disk_settings 4 2 p ≡ done (granted (1 ∷ 2 ∷ []), r))
write_file-read_file_example =
    write_file-read_file disk_settings 4 (1 ∷ 2 ∷ []) open_file disk_open refl refl refl refl
      (inl refl) (omega arith)

-- Three quarters of a second before midnight, on a clock that moves by eighths and stops after ten
-- readings: the 21st one is at half a second past midnight.
abbrev clock : Clock
clock = record { milliseconds = 86399250; reads = 0 }

abbrev eighths : ClockSettings
eighths = record { freeze_after_reads = some 10; step_milliseconds = some 125 }

-- A header, its first bytes and the rest, and a program of one byte.
abbrev first_bytes : Bytes
first_bytes =
    69 ∷ 88 ∷ 69 ∷ 1 ∷ 128 ∷ 0 ∷ 0 ∷ 0 ∷ 0 ∷ 0 ∷ 0 ∷ 0 ∷ 0 ∷ 0 ∷ 0 ∷ 0 ∷ 0 ∷ 0x41 ∷ 0 ∷ 0x41 ∷ 0
    ∷ 0x40 ∷ []

abbrev exe : Bytes
exe = first_bytes ++ (replicate 106 0 ++ (0xc9 ∷ []))

exe_bytes : AllBytes exe
exe_bytes =
    AllBytes-append first_bytes (replicate 106 0 ++ (0xc9 ∷ [])) (ground arith)
      (AllBytes-append (replicate 106 0) (0xc9 ∷ []) (AllBytes-replicate 106) (omega arith, tt))

image_of-FitsMemory_example :
    FitsMemory exe (record { entry = 0x4100; stack = 0x4000; load_address = 0x4080 })
unfolding image_of
image_of-FitsMemory_example =
    image_of-FitsMemory exe (record { entry = 0x4100; stack = 0x4000; load_address = 0x4080 })
      exe_bytes refl

abbrev machine_after : Outcome (Machine ℕ) → Machine ℕ
machine_after (done n) = n
machine_after _ = machine

-- A machine with page 16 in its third window.
abbrev mapped_machine : Machine ℕ
mapped_machine = record machine {
  pages = (16, λ a. 0) ∷ [];
  allocations = (16, 1) ∷ [];
  next_block = 17;
  win2 = some 16;
}

mapped_sound : MemorySound mapped_machine
unfolding start_machine
mapped_sound = record {
  first = tt;
  second = tt;
  third = refl;
  fourth = tt;
  covered = λ page h. record {
    base = 16;
    count = 1;
    found = refl;
    from_base = ground arith;
    in_count = ground arith;
    below = ground arith;
  };
}

wr-rd_cells_example :
    ((x : ℕ) × (rd settings 0x8005 mapped_machine ≡ done (x, counted mapped_machine))
      × (content mapped_machine (cell_of mapped_machine 0x8005) ≡ some x))
    × ((n : Machine ℕ) × (wr settings peers 0x8005 7 mapped_machine ≡ done n)
        × ((b : ℕ) → cell_of n b ≡ cell_of mapped_machine b)
        × ((c : Cell)
            → content n c ≡ (
                if same_cell c (cell_of mapped_machine 0x8005)
                then some 7
                else content mapped_machine c)))
unfolding start_machine
wr-rd_cells_example = wr-rd_cells settings peers 0x8005 7 mapped_machine mapped_sound refl

abbrev freed_machine : Machine ℕ
freed_machine = machine_after (free_mem 16 mapped_machine)

free_mem-free_mem_example : free_mem 16 freed_machine ≡ failed unknown_block
unfolding free_mem start_machine
free_mem-free_mem_example = free_mem-free_mem 16 mapped_machine freed_machine refl

abbrev address_name : Bytes
address_name = codes "Net_Ip"

assign-get_env_example :
    (d : Console) × (assign (address_name ++ (61 ∷ codes "10.0.0.2")) console ≡ done d)
    × ((other : Bytes) → get_env other d ≡ read_back address_name (codes "10.0.0.2") other console)
assign-get_env_example = assign-get_env address_name (codes "10.0.0.2") console refl refl

abbrev escape_key : Registers
escape_key = record { a = 1; b = 0; d = 1; e = 0x1b }

scan_key-IsOnTime_example :
    (d : Console) × (scan_key console_settings 0 0 console ≡ done (escape_key, d))
    × IsOnTime console_settings d
    × (d.scan_count ≡ 2)
scan_key-IsOnTime_example =
    scan_key-IsOnTime console_settings 0 0 console escape escape_key refl refl refl refl refl
