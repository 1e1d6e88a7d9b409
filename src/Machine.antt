-- ===== src/Machine.antt =====
-- The machine of `runExe` as the program sees it: memory in four windows, the ISA window onto the
-- card, and the pages that DSS hands out. The processor is not part of it, and the record of executable
-- pages is kept beside it.
pub mod Memory
pub mod Ports
pub mod Pages
pub mod Stack
pub mod Load
pub mod Disk
pub mod Clock
pub mod Console
pub mod Executable
pub mod Session
mod Tests
use sprinter_3c509b.Base.{
  ℕ, zero, suc, ◌+◌, ◌*◌, ◌/◌, ◌%◌, Bool, true, false, Option, none, some, List, [], ◌∷◌, ◌==◌,
  if◌then◌else◌, Fault, Result, ok, err,
}
use sprinter_3c509b.Card.{Card}

-- What `runExe` throws, the faults of the card included. `missing_page` stands for the TypeError of
-- a window whose page is gone.
pub data Failure : Type 0 where
  card_fault : Fault → Failure
  missing_page : Failure
  half_read half_write : Failure
  unknown_port unknown_system_value bad_isa_mapping : Failure
  isa_is_open : Failure
  console_stack unterminated_string : Failure
  unallocated_page image_window unknown_block : Failure
  unreleased_pages unclosed_files : Failure
  unknown_handle bad_whence : Failure
  bad_header bad_layout too_long bad_stack : Failure
  invalid_assignment unknown_subfunction no_echo_key unknown_key : Failure
  bad_l1_fields no_l1_boundary bad_l1_overlay pc_escaped : Failure

pub data Outcome {ℓ} (A : Type ℓ) : Type ℓ where
  done : A → Outcome A
  failed : Failure → Outcome A

-- What comes after a step that did not throw.
abbrev pub then_do {ℓ κ} : {A : Type ℓ} {B : Type κ} → Outcome A → (A → Outcome B) → Outcome B
then_do (failed why) next = failed why
then_do (done a) next = next a

-- A call of the card.
abbrev pub on_card {ℓ κ} : {A : Type ℓ} {B : Type κ} → Result A → (A → B) → Outcome B
on_card (err fault) next = failed (card_fault fault)
on_card (ok a) next = done (next a)

-- An array of bytes, as the function from offsets.
abbrev pub Memory : Type 0
Memory = ℕ → ℕ

abbrev pub put : ℕ → ℕ → Memory → Memory
put at v memory = λ a. if a == at then v else memory a

-- A `Map` with numbers for keys.
abbrev pub Table {ℓ} : Type ℓ → Type ℓ
Table A = List (ℕ × A)

abbrev pub entry_at {ℓ} : {A : Type ℓ} → ℕ → Table A → Option A
entry_at k [] = none
entry_at k ((j, a) ∷ table) = if j == k then some a else entry_at k table

abbrev pub has_entry {ℓ} : {A : Type ℓ} → ℕ → Table A → Bool
has_entry k [] = false
has_entry k ((j, a) ∷ table) = if j == k then true else has_entry k table

abbrev pub without_entry {ℓ} : {A : Type ℓ} → ℕ → Table A → Table A
without_entry k [] = []
without_entry k ((j, a) ∷ table) =
    let rest = without_entry k table in if j == k then rest else (j, a) ∷ rest

-- What `pageFill` puts into a fresh page.
pub data Fill : Type 0 where
  blank random : Fill
  constant : ℕ → Fill

pub record Settings : Type 0 where
  pub card_slot : ℕ
  pub id_port : Option ℕ
  pub fill : Fill
  pub load_address : ℕ
  pub dss_stack_bytes : Option ℕ

-- `page0` to `page3` are what the ports of the windows read; `win0` to `win3` the pages that are
-- mapped, `none` for the machine's own memory.
pub record Machine (P : Type 0) : Type 0 where
  pub ram : Memory
  pub card : Card P
  pub page0 : ℕ
  pub page1 : ℕ
  pub page2 : ℕ
  pub page3 : ℕ
  pub win0 : Option ℕ
  pub win1 : Option ℕ
  pub win2 : Option ℕ
  pub win3 : Option ℕ
  pub system_isa : Bool
  pub isa_open : Bool
  pub selected_slot : ℕ
  pub next_block : ℕ
  pub pages : Table Memory
  pub allocations : Table ℕ
  pub fill_state : ℕ
  pub memory_access_count : ℕ
  pub isa_session_count : ℕ
  pub probed_slots : List ℕ
  pub probed_id_ports : List ℕ

abbrev pub allocated : {P : Type 0} → Machine P → ℕ → Bool
allocated m page = has_entry page m.pages
