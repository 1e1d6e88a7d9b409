-- ===== src/Card/New.antt =====
-- The constructor of `class EtherLinkIII`: the card as a scenario starts it.
pub mod Mac
use sprinter_3c509b.Base.{
  ℕ, ◌%◌, Bool, false, Option, none, List, [], ◌∷◌, set, Bytes, or_default, or_nonzero,
}
use sprinter_3c509b.Card.{Card, Scenario}
use sprinter_3c509b.Card.Eeprom.{eeprom_words}

-- The fields of the scenario that the constructor reads. `card_present` and `link` are true where
-- the scenario leaves them out; `link_delay` is 0.
pub record Setup : Type 0 where
  pub scenario : Scenario
  pub card_present : Bool
  pub base : Option ℕ
  pub eeprom_base : Option ℕ
  pub mac : Option Bytes
  pub eeprom_patch : List (ℕ × ℕ)
  pub tx_available : Option ℕ
  pub rx_frames : List Bytes
  pub link : Bool
  pub link_delay : ℕ

abbrev pub default_mac : Bytes
default_mac = 2 ∷ 0x60 ∷ 0x8c ∷ 0x12 ∷ 0x34 ∷ 0x56 ∷ []

abbrev pub patched : List ℕ → List (ℕ × ℕ) → List ℕ
patched words [] = words
patched words ((index, value) ∷ patches) = patched (set words index (value % 65536)) patches

-- The card's own state; `peer` is what the peers start with.
unfoldable pub new_card : {P : Type 0} → Setup → P → Card P
unfolding eeprom_words
new_card s peer =
    let base = or_nonzero s.base 0x300 in
    let eeprom_base = or_nonzero s.eeprom_base base in
    record {
      scenario = s.scenario;
      present = s.card_present;
      base = base;
      eeprom_base = eeprom_base;
      eeprom = patched (eeprom_words (or_default s.mac default_mac) eeprom_base) s.eeprom_patch;
      active = false;
      window = 0;
      rx_enabled = false;
      tx_enabled = false;
      stats_enabled = false;
      station = 0 ∷ 0 ∷ 0 ∷ 0 ∷ 0 ∷ 0 ∷ [];
      media_writable = 0;
      net_diag = 0;
      rx_filter = 0;
      intr_mask = 0;
      read_zero = 0;
      rx_early = 0x7fc;
      tx_available = or_default s.tx_available 0x7fc;
      tx_start = 0x600;
      tx_status = [];
      tx_stale_injected = false;
      tx_status_reads = 0;
      tx_status_pops = 0;
      tx_free_reads = 0;
      tx_fifo = [];
      tx_expected = 0;
      rx_queue = [];
      pending_input = s.rx_frames;
      transmitted = [];
      tx_records = [];
      rejected = [];
      link = s.link;
      link_delay = s.link_delay;
      link_reads = 0;
      id_zeros = 0;
      id_index = none;
      id_selected = false;
      tagged = false;
      serial_bits = [];
      word_write_low = [];
      word_read_high = [];
      delayed = [];
      generated = [];
      peer = peer;
    }
