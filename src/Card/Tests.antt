-- ===== src/Card/Tests.antt =====
-- The theorems on the card at a concrete card.
use sprinter_3c509b.Base.{
  ◌≡◌, refl, true, false, none, [], ◌∷◌, ◌++◌, arith, Bytes, ok, ◌>>=◌, low, high, ℕ, ◌+◌,
}
use sprinter_3c509b.Card.{Card, Scenario, Peers}
use sprinter_3c509b.Card.New.{Setup, new_card}
use sprinter_3c509b.Card.New.Mac.{new_card-mac_read}
use sprinter_3c509b.Card.Id.{id_write, id_read}
use sprinter_3c509b.Card.Id.Select.{id_write_all, id_sequence_bytes, sequence_selects_card}
use sprinter_3c509b.Card.Id.Serial.{read_bits, eeprom_word_read}
use sprinter_3c509b.Card.Fifo.Accept.{entry, tx_bytes}
use sprinter_3c509b.Card.Fifo.Transmit.{transmit_frame}
use sprinter_3c509b.Card.Bus.{read_word, read_byte, write_word, write_byte}
use sprinter_3c509b.Card.Bus.Words.{IsPlain, write_bytes-word, read_bytes-word}

abbrev scenario : Scenario
scenario = record {
  tx_never_complete = false;
  tx_completion_status = none;
  tx_completion_delay_reads = 0;
  tx_stale_statuses = [];
  tx_free_blocked = false;
  tx_free_delay_reads = 0;
  rx_fifo_bytes = none;
}

-- A card that is activated, in window 1 and ready to send.
abbrev ready_card : Card ℕ
ready_card = record {
  scenario = scenario;
  present = true;
  base = 0x300;
  eeprom_base = 0x300;
  eeprom = 0x0200 ∷ 0x0000 ∷ 0x0002 ∷ 0x9050 ∷ [];
  active = true;
  window = 1;
  rx_enabled = true;
  tx_enabled = true;
  stats_enabled = false;
  station = 2 ∷ 0 ∷ 0 ∷ 0 ∷ 0 ∷ 2 ∷ [];
  media_writable = 0;
  net_diag = 0;
  rx_filter = 5;
  intr_mask = 0;
  read_zero = 0;
  rx_early = 0;
  tx_available = 0;
  tx_start = 0;
  tx_status = [];
  tx_stale_injected = false;
  tx_status_reads = 0;
  tx_status_pops = 0;
  tx_free_reads = 0;
  tx_fifo = [];
  tx_expected = 0;
  rx_queue = [];
  pending_input = [];
  transmitted = [];
  tx_records = [];
  rejected = [];
  link = true;
  link_delay = 0;
  link_reads = 0;
  id_zeros = 0;
  id_index = none;
  id_selected = true;
  tagged = false;
  serial_bits = [];
  word_write_low = [];
  word_read_high = [];
  delayed = [];
  generated = [];
  peer = 0;
}

-- Peers that count the frames and answer none.
abbrev silent : Peers ℕ
silent = record { respond = λ frame n. (n + 1, []); credit_client_ack = λ frame n. n }

sequence_selects_card_example :
    id_write_all ready_card (0 ∷ 0 ∷ id_sequence_bytes)
    ≡ ok (record ready_card { id_zeros = 0; id_index = none; id_selected = true })
sequence_selects_card_example =
    sequence_selects_card ready_card id_sequence_bytes refl refl refl refl (omega arith)

eeprom_word_read_example :
    (d : Card ℕ) × (id_write ready_card (128 + 3) ≡ ok d)
    × (read_bits 16 d 0 ≡ (0x9050, record ready_card { id_zeros = 0; serial_bits = [] }))
    × (id_read (record ready_card { id_zeros = 0; serial_bits = [] })
        ≡ (1, record ready_card { id_zeros = 0; serial_bits = [] }))
eeprom_word_read_example = eeprom_word_read ready_card 3 refl refl refl (omega arith) (omega arith)

abbrev frame : Bytes
frame = 1 ∷ 2 ∷ 3 ∷ 4 ∷ 5 ∷ []

transmit_frame_example :
    (d : Card ℕ) × (tx_bytes silent ready_card (entry frame) ≡ ok d)
    × (d.transmitted ≡ [] ++ (frame ∷ []))
    × (d.peer ≡ 1)
    × (d.tx_fifo ≡ [])
    × (d.tx_expected ≡ 0)
transmit_frame_example =
    transmit_frame silent ready_card frame refl refl refl refl (omega arith) (omega arith)

abbrev plain : IsPlain 1 0x0e
plain = record {
  even = refl;
  fifo = λ _. omega arith;
  station = λ e. absurd (omega arith);
  statistics = λ e. absurd (omega arith);
}

write_bytes-word_example :
    (write_byte silent ready_card 0x0e 0x04 >>= λ d. write_byte silent d (0x0e + 1) 0x08)
    ≡ write_word silent (record ready_card { word_write_low = [] }) 0x0e 0x0804
write_bytes-word_example =
    write_bytes-word silent ready_card 0x0e 0x04 0x08 refl plain (omega arith) (omega arith)

read_bytes-word_example :
    (e : Card ℕ) × (read_byte ready_card 0x0e ≡ ok (low (read_word ready_card 0x0e).0, e))
    × (read_byte e (0x0e + 1)
        ≡ ok (
          low (high (read_word ready_card 0x0e).0),
          record (read_word ready_card 0x0e).1 { word_read_high = [] },
        ))
read_bytes-word_example = read_bytes-word ready_card 0x0e refl plain

-- A card with the default MAC address.
abbrev setup : Setup
setup = record {
  scenario = scenario;
  card_present = true;
  base = none;
  eeprom_base = none;
  mac = none;
  eeprom_patch = [];
  tx_available = none;
  rx_frames = [];
  link = true;
  link_delay = 0;
}

abbrev fresh_card : Card ℕ
fresh_card = new_card setup 0

-- The second pair of bytes.
new_card-mac_read_example :
    (d : Card ℕ) × ((id_write_all fresh_card (0 ∷ 0 ∷ id_sequence_bytes) >>= λ c. id_write c 129)
      ≡ ok d)
    × ((read_bits 16 d 0).0 ≡ 0x8c12)
new_card-mac_read_example =
    new_card-mac_read setup 0 1 refl refl
      (omega arith, (omega arith, (omega arith, (omega arith, (omega arith, (omega arith, tt))))))
      (omega arith)
