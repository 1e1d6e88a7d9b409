-- ===== src/Card.antt =====
-- The state of `class EtherLinkIII`: the registers, queues and counters of the card model. What
-- the peers behind the wire remember (the responders' counters and connections) is the field
-- `peer`, of a type that the card does not look into.
pub mod Id
pub mod Fifo
pub mod Command
pub mod Bus
pub mod Eeprom
pub mod New
mod Tests
use sprinter_3c509b.Base.{
  ℕ, zero, suc, ◌+◌, ◌-◌, ◌*◌, ◌/◌, ◌%◌, Bool, true, false, not, ◌&&◌, ◌||◌, Option, none, some,
  List, [], ◌∷◌, ◌++◌, leb, ◌==◌, if◌then◌else◌, Bytes, equal, take, bit_and, length,
}

-- An entry of `rxQueue`.
pub record Received : Type 0 where
  pub frame : Bytes
  pub cursor : ℕ
  pub status_error : Bool

-- An entry of `txStatus`.
pub record TxStatus : Type 0 where
  pub value : ℕ
  pub remaining : ℕ

-- An entry of `delayed`.
pub record Delayed : Type 0 where
  pub polls : ℕ
  pub frame : Bytes

-- An entry of `txRecords`.
pub record TxRecord : Type 0 where
  pub preamble : Bytes
  pub dword_pad : Bytes
  pub frame : Bytes

-- The fields of the scenario that the card itself reads.
pub record Scenario : Type 0 where
  pub tx_never_complete : Bool
  pub tx_completion_status : Option ℕ
  pub tx_completion_delay_reads : ℕ
  pub tx_stale_statuses : List ℕ
  pub tx_free_blocked : Bool
  pub tx_free_delay_reads : ℕ
  pub rx_fifo_bytes : Option ℕ

-- A `Map` from offsets to bytes.
abbrev pub ByteMap : Type 0
ByteMap = List (ℕ × ℕ)

abbrev pub lookup : ℕ → ByteMap → Option ℕ
lookup k [] = none
lookup k ((j, v) ∷ m) = if j == k then some v else lookup k m

abbrev pub remove : ℕ → ByteMap → ByteMap
remove k [] = []
remove k ((j, v) ∷ m) = if j == k then remove k m else (j, v) ∷ remove k m

abbrev pub insert : ℕ → ℕ → ByteMap → ByteMap
insert k v m = (k, v) ∷ remove k m

pub record Card (P : Type 0) : Type 0 where
  pub scenario : Scenario
  pub present : Bool
  pub base : ℕ
  pub eeprom_base : ℕ
  pub eeprom : List ℕ
  pub active : Bool
  pub window : ℕ
  pub rx_enabled : Bool
  pub tx_enabled : Bool
  pub stats_enabled : Bool
  pub station : Bytes
  pub media_writable : ℕ
  pub net_diag : ℕ
  pub rx_filter : ℕ
  pub intr_mask : ℕ
  pub read_zero : ℕ
  pub rx_early : ℕ
  pub tx_available : ℕ
  pub tx_start : ℕ
  pub tx_status : List TxStatus
  pub tx_stale_injected : Bool
  pub tx_status_reads : ℕ
  pub tx_status_pops : ℕ
  pub tx_free_reads : ℕ
  pub tx_fifo : Bytes
  pub tx_expected : ℕ
  pub rx_queue : List Received
  pub pending_input : List Bytes
  pub transmitted : List Bytes
  pub tx_records : List TxRecord
  pub rejected : List Bytes
  pub link : Bool
  pub link_delay : ℕ
  pub link_reads : ℕ
  pub id_zeros : ℕ
  pub id_index : Option ℕ
  pub id_selected : Bool
  pub tagged : Bool
  pub serial_bits : List ℕ
  pub word_write_low : ByteMap
  pub word_read_high : ByteMap
  pub delayed : List Delayed
  pub generated : List Bytes
  pub peer : P

-- A frame that a peer answers with. One that the scenario loses on the wire is recorded and goes
-- no further; `polls` is the delay that the scenario asks for, 0 for none.
pub record Reply : Type 0 where
  pub frame : Bytes
  pub lost : Bool
  pub status_error : Bool
  pub polls : ℕ

-- What the card needs of the peers: what they answer to a transmitted frame, and what they note
-- when the program takes a frame out of the receive FIFO.
pub record Peers (P : Type 0) : Type 0 where
  pub respond : Bytes → P → P × List Reply
  pub credit_client_ack : Bytes → P → P

module _ {P : Type 0} where
  unfoldable pub reset_runtime : Card P → Card P
  reset_runtime c = record c {
    active = false;
    window = 0;
    rx_enabled = false;
    tx_enabled = false;
    stats_enabled = false;
    media_writable = 0;
    net_diag = 0;
    rx_filter = 0;
    tx_status = [];
    tx_fifo = [];
    tx_expected = 0;
    rx_queue = [];
    word_write_low = [];
    word_read_high = [];
  }

  -- `linkUp`: the answer, and the card with one more reading counted.
  unfoldable pub link_up : Card P → Bool × Card P
  link_up c = (c.link && leb c.link_delay c.link_reads, record c { link_reads = c.link_reads + 1 })

  unfoldable pub accepts : Card P → Bytes → Bool
  accepts c frame =
      let dest = take 6 frame in
      if equal dest (0xff ∷ 0xff ∷ 0xff ∷ 0xff ∷ 0xff ∷ 0xff ∷ [])
      then not (bit_and c.rx_filter 4 == 0)
      else not (bit_and c.rx_filter 1 == 0) && equal dest c.station
