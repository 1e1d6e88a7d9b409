-- ===== src/Machine/Session/Throws.antt =====
-- What the calls of the disk throw.
use sprinter_3c509b.Base.{
  Bool, true, not, ◌&&◌, List, [], ◌∷◌, ℕ, ◌+◌, ◌||◌, Option, none, some, ◌==◌, if_both, Bytes,
  length,
}
use sprinter_3c509b.Machine.{Outcome, done, failed, then_do, Machine, entry_at, has_entry}
use sprinter_3c509b.Peer.Tcp.Drain.{is_nil}
use sprinter_3c509b.Machine.Console.{
  Simulated, escape, ctrl_c, other, ConsoleSettings, Console, split_assignment, assign_split,
  assign, app_info, echo_key, clear_keys, key_ready, key_registers, with_console, scan_found,
  scan_key,
}
use sprinter_3c509b.Machine.Disk.{
  Disk, DiskSettings, OpenFile, is_at, is_past, read_found, write_found, move_found, close_file,
  read_file, write_file, move_pointer,
}
use sprinter_3c509b.Machine.Session.Windows.{IsThrown, Safely}

-- A call throws by itself, if it throws.
abbrev pub HasThrown {ℓ} : {A : Type ℓ} → Outcome A → Type 0
HasThrown (done a) = Unit
HasThrown (failed why) = IsThrown why

-- The calls of the disk throw nothing but their own failures.
pub close_file-HasThrown :
    (o : DiskSettings) (handle : ℕ) (d : Disk) → HasThrown (close_file o handle d)
unfolding close_file
close_file-HasThrown o handle d =
    if_both HasThrown (is_at o.close_fail_at (d.close_calls + 1)) tt
      (if_both HasThrown (has_entry handle d.open_files) tt tt)

pub read_file-HasThrown :
    (o : DiskSettings) (handle count : ℕ) (d : Disk) → HasThrown (read_file o handle count d)
unfolding read_file
read_file-HasThrown o handle count d = found (entry_at handle d.open_files)
  where
    found : (f : Option OpenFile) → HasThrown (read_found o handle count d f)
    found none = tt
    found (some f) = if_both HasThrown (is_at o.read_fail_at (d.read_calls + 1)) tt tt

pub write_file-HasThrown :
    (o : DiskSettings) (handle : ℕ) (bytes : Bytes) (d : Disk)
    → HasThrown (write_file o handle bytes d)
unfolding write_file
write_file-HasThrown o handle bytes d = found (entry_at handle d.open_files)
  where
    found : (f : Option OpenFile) → HasThrown (write_found o handle bytes d f)
    found none = tt
    found (some f) =
        if_both HasThrown
          (is_at o.write_fail_at (d.write_calls + 1)
            || is_past o.disk_full_after (d.total_written + length bytes))
          tt tt

pub move_pointer-HasThrown :
    (o : DiskSettings) (whence raw handle : ℕ) (d : Disk)
    → HasThrown (move_pointer o whence raw handle d)
unfolding move_pointer
move_pointer-HasThrown o whence raw handle d = found (entry_at handle d.open_files)
  where
    found : (f : Option OpenFile) → HasThrown (move_found o whence raw handle d f)
    found none = tt
    found (some f) =
        if_both HasThrown (whence == 0) tt
          (if_both HasThrown (whence == 1) tt (if_both HasThrown (whence == 2) tt tt))

-- Nor do those of the console.
pub assign-HasThrown : (assignment : Bytes) (c : Console) → HasThrown (assign assignment c)
unfolding assign
assign-HasThrown assignment c = found (split_assignment assignment)
  where
    found : (o : Option (Bytes × Bytes)) → HasThrown (assign_split c o)
    found none = tt
    found (some (name, value)) = if_both HasThrown (is_nil name) tt tt

pub app_info-HasThrown : (o : ConsoleSettings) (sub : ℕ) → HasThrown (app_info o sub)
app_info-HasThrown o sub = if_both HasThrown (sub == 1) tt (if_both HasThrown (sub == 0) tt tt)

pub clear_keys-HasThrown : (o : ConsoleSettings) (sub : ℕ) → HasThrown (clear_keys o sub)
clear_keys-HasThrown o sub = if_both HasThrown (not (sub == 0x30)) tt tt

pub echo_key-HasThrown : (c : Console) (keys : List ℕ) → HasThrown (echo_key c keys)
echo_key-HasThrown c [] = tt
echo_key-HasThrown c (key ∷ keys) = tt

pub scan_key-HasThrown :
    (o : ConsoleSettings) (http_bytes ftp_bytes : ℕ) (c : Console)
    → HasThrown (scan_key o http_bytes ftp_bytes c)
unfolding scan_key
scan_key-HasThrown o http_bytes ftp_bytes c = found o.key
  where
    scanned : Console
    scanned = record c { scan_count = c.scan_count + 1 }

    ready : Bool
    ready = key_ready o http_bytes ftp_bytes scanned.scan_count

    delivered :
        (key : Simulated)
        → HasThrown (with_console (record scanned { key_delivered = true }) (key_registers key))
    delivered escape = tt
    delivered ctrl_c = tt
    delivered other = tt

    found : (key : Option Simulated) → HasThrown (scan_found ready scanned key)
    found none = tt
    found (some key) = if_both HasThrown (not c.key_delivered && ready) (delivered key) tt

module _ {P : Type 0} where
  -- A call that leaves the machine alone.
  pub unmoved :
      {A B : Type 0} (to : B → Machine P) (x : Outcome A) (f : A → Outcome B)
      → HasThrown x
      → ((a : A) → Safely to (f a))
      → Safely to (then_do x f)
  unmoved to (done a) f h next = next a
  unmoved to (failed why) f h next = h
