-- ===== src/Machine/Console.antt =====
-- The DSS calls that touch neither pages nor files: the environment, the program's arguments, the
-- keyboard and the clock.
pub mod Environment
pub mod Scan
use sprinter_3c509b.Base.{
  ℕ, zero, suc, ◌+◌, ◌-◌, ◌%◌, Bool, true, false, not, ◌&&◌, ◌||◌, Option, none, some, List, [],
  ◌∷◌, ◌++◌, leb, ◌==◌, if◌then◌else◌, Bytes, byte_at, equal, or_nonzero,
}
use sprinter_3c509b.Machine.{
  Outcome, done, failed, invalid_assignment, unknown_subfunction, no_echo_key, unknown_key,
}
use sprinter_3c509b.Machine.Clock.{Clock, ClockSettings}
use sprinter_3c509b.Peer.Tcp.Drain.{is_nil}
use sprinter_3c509b.Peer.Text.{codes, upper, or_text, value_of, with_value, without_value}

pub data Simulated : Type 0 where
  escape ctrl_c other : Simulated

-- What the calls read of the scenario, and the arguments of the program. A number or a text that the
-- source tests by `||` or `&&` is 0 or empty where it is missing.
pub record ConsoleSettings : Type 0 where
  pub args : Bytes
  pub app_dir : Bytes
  pub env_fail_at : ℕ
  pub prompt_key : Bytes
  pub set_time_fail : Bool
  pub set_time_error : ℕ
  pub key : Option Simulated
  pub key_at_scan : ℕ
  pub key_after_http_bytes : Option ℕ
  pub key_after_ftp_bytes : Option ℕ
  pub clock : ClockSettings

-- The registers of SETTIME.
pub record Moment : Type 0 where
  pub day : ℕ
  pub month : ℕ
  pub year : ℕ
  pub hour : ℕ
  pub minute : ℕ
  pub second : ℕ

-- The registers in which a key comes back.
pub record Registers : Type 0 where
  pub a : ℕ
  pub b : ℕ
  pub d : ℕ
  pub e : ℕ

pub record Console : Type 0 where
  pub environment : List (Bytes × Bytes)
  pub env_set_count : ℕ
  pub echo_keys : List ℕ
  pub echo_key_reads : ℕ
  pub set_time_calls : List Moment
  pub scan_count : ℕ
  pub key_delivered : Bool
  pub clock : Clock

-- The text in front of the first `=` and behind it.
abbrev pub add_to_name : ℕ → Option (Bytes × Bytes) → Option (Bytes × Bytes)
add_to_name c none = none
add_to_name c (some (name, value)) = some (c ∷ name, value)

abbrev pub split_assignment : Bytes → Option (Bytes × Bytes)
split_assignment [] = none
split_assignment (c ∷ cs) = if c == 61 then some ([], cs) else add_to_name c (split_assignment cs)

-- GETENV.
unfoldable pub get_env : Bytes → Console → Option Bytes
get_env name c = value_of (upper name) c.environment

-- SETENV, behind the count of its calls: an empty value deletes the name.
abbrev pub count_set : Console → Console
count_set c = record c { env_set_count = c.env_set_count + 1 }

abbrev pub set_fails : ConsoleSettings → Console → Bool
set_fails o c = not (o.env_fail_at == 0) && c.env_set_count == o.env_fail_at

abbrev pub put_value : Bytes → Bytes → Console → Console
put_value name value c = record c {
  environment =
      if is_nil value
      then without_value (upper name) c.environment
      else with_value (upper name) value c.environment;
}

abbrev pub assign_split : Console → Option (Bytes × Bytes) → Outcome Console
assign_split c none = failed invalid_assignment
assign_split c (some (name, value)) =
    if is_nil name then failed invalid_assignment else done (put_value name value c)

unfoldable pub assign : Bytes → Console → Outcome Console
assign assignment c = assign_split c (split_assignment assignment)

-- APPINFO.
abbrev pub app_info : ConsoleSettings → ℕ → Outcome Bytes
app_info o sub =
    if sub == 1
    then done (or_text o.app_dir (codes "C:\\NET"))
    else if sub == 0
    then done o.args
    else failed unknown_subfunction

-- ECHOKEY takes the next key of the input, K_CLEAR answers with the key of the prompt.
abbrev pub echo_key : Console → List ℕ → Outcome (Registers × Console)
echo_key c [] = failed no_echo_key
echo_key c (key ∷ keys) = done (
  record { a = key % 256; b = 0; d = 0; e = key % 256 },
  record c { echo_keys = keys; echo_key_reads = c.echo_key_reads + 1 },
)

abbrev pub clear_keys : ConsoleSettings → ℕ → Outcome ℕ
clear_keys o sub =
    let key = or_text o.prompt_key (codes "n") in
    if not (sub == 0x30)
    then failed unknown_subfunction
    else done (if equal key (codes "escape") then 0x1b else byte_at key 0)

abbrev pub note_time : Moment → Console → Console
note_time moment c = record c { set_time_calls = c.set_time_calls ++ (moment ∷ []) }

-- SCANKEY: the simulated key comes once, when enough has been sent or at the scan that is asked for.
abbrev pub no_key : Registers
no_key = record { a = 0; b = 0; d = 0; e = 0 }

abbrev pub key_ready : ConsoleSettings → ℕ → ℕ → ℕ → Bool
key_ready o http_bytes ftp_bytes scan = elim o.key_after_http_bytes [
  | some n ↦ leb n http_bytes
  | none ↦ elim o.key_after_ftp_bytes [
    | some n ↦ leb n ftp_bytes
    | none ↦ scan == or_nonzero (some o.key_at_scan) 1
  ]
]

abbrev pub key_registers : Simulated → Outcome Registers
key_registers escape = done (record { a = 1; b = 0; d = 1; e = 0x1b })
key_registers ctrl_c = done (record { a = 1; b = 0x20; d = 0xac; e = 0 })
key_registers other = failed unknown_key

abbrev pub with_console : Console → Outcome Registers → Outcome (Registers × Console)
with_console c (failed why) = failed why
with_console c (done r) = done (r, c)

abbrev pub scan_found : Bool → Console → Option Simulated → Outcome (Registers × Console)
scan_found ready c none = done (no_key, c)
scan_found ready c (some key) =
    if not c.key_delivered && ready
    then with_console (record c { key_delivered = true }) (key_registers key)
    else done (no_key, c)

unfoldable pub scan_key : ConsoleSettings → ℕ → ℕ → Console → Outcome (Registers × Console)
scan_key o http_bytes ftp_bytes c =
    let scanned = record c { scan_count = c.scan_count + 1 } in
    scan_found (key_ready o http_bytes ftp_bytes scanned.scan_count) scanned o.key
