-- ===== src/Machine/Load.antt =====
-- The start of `runExe`: the checks on the header of a DSS executable, and the machine that the
-- program is loaded into.
pub mod Header
use sprinter_3c509b.Base.{
  ℕ, zero, suc, ◌+◌, ◌-◌, ◌*◌, ◌%◌, Bool, true, false, not, ◌&&◌, ◌||◌, Option, none, some, List,
  [], ◌∷◌, ltb, leb, ◌==◌, if◌then◌else◌, length, take, map, Bytes, byte_at, word, equal,
  or_nonzero,
}
use sprinter_3c509b.Card.{Card, Peers}
use sprinter_3c509b.Machine.{
  Outcome, done, failed, then_do, bad_header, bad_layout, too_long, bad_stack, Memory, Settings,
  Fill, Machine,
}
use sprinter_3c509b.Machine.Memory.{wr}
use sprinter_3c509b.Machine.Pages.{fresh_page, fill_past}
use sprinter_3c509b.Machine.Stack.{spend_stack, write_all}

-- `u16`
abbrev pub u16 : Bytes → ℕ → ℕ
u16 exe at = word (byte_at exe (at + 1)) (byte_at exe at)

-- `toString('ascii')`, which leaves out the highest bit of a byte.
abbrev pub ascii : Bytes → Bytes
ascii bytes = map (λ c. c % 128) bytes

pub record Image : Type 0 where
  pub entry : ℕ
  pub stack : ℕ
  pub load_address : ℕ

unfoldable pub image_of : Bytes → Outcome Image
image_of exe =
    let entry = u16 exe 16 in
    let stack = u16 exe 20 in
    let load_address = entry - 128 in
    let image_end = load_address + length exe in
    if leb (length exe) 128
      || not (equal (ascii (take 3 exe)) (69 ∷ 88 ∷ 69 ∷ []))
      || not (byte_at exe 3 == 1)
    then failed bad_header
    else if not (u16 exe 4 == 128) || not (entry == u16 exe 18)
    then failed bad_layout
    else if ltb entry 128 || ltb 0xc000 image_end
    then failed too_long
    else if ltb entry stack && ltb stack (image_end + 0x40)
    then failed bad_stack
    else done (record { entry = entry; stack = stack; load_address = load_address })

-- Fresh memory with the file in it.
unfoldable pub loaded : Bytes → ℕ → Memory → Memory
loaded exe at memory =
    λ a. if leb at a && ltb a (at + length exe) then byte_at exe (a - at) else memory a

module _ {P : Type 0} (settings : Settings) (page_seed : Option ℕ) where
  -- The machine with the program in its memory and no window mapped.
  unfoldable pub start_machine : Bytes → Card P → Machine P
  unfolding fresh_page loaded
  start_machine exe card =
      let seed = or_nonzero page_seed 0x2545 % 65536 in
      record {
        ram = loaded exe settings.load_address (fresh_page settings.fill seed);
        card = card;
        page0 = 0;
        page1 = 1;
        page2 = 2;
        page3 = 3;
        win0 = none;
        win1 = none;
        win2 = none;
        win3 = none;
        system_isa = false;
        isa_open = false;
        selected_slot = 0;
        next_block = 16;
        pages = [];
        allocations = [];
        fill_state = fill_past settings.fill 0x10000 seed;
        memory_access_count = 0;
        isa_session_count = 0;
        probed_slots = [];
        probed_id_ports = [];
      }

  -- The command line and the frames of the loader below the stack.
  unfoldable pub prepare : Peers P → ℕ → Bytes → Machine P → Outcome (Machine P)
  unfolding spend_stack write_all
  prepare peers stack args m =
      let command = if ltb settings.load_address 0x8000 then 0x3000 else 0x7000 in
      if ltb 255 (length args)
      then failed too_long
      else then_do (write_all settings peers command (length args ∷ args) m)
          (spend_stack settings peers stack 1 0x40)
