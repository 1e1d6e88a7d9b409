-- ===== src/Base/Errors.antt =====
-- What a model function returns where the source may throw.

-- The errors that the card model throws.
pub data Fault : Type 0 where
  bad_id_byte id_without_activation unknown_id_command : Fault
  bad_window discard_on_empty unknown_command : Fault
  tx_wrong_window tx_disabled tx_preamble tx_padding : Fault
  rx_wrong_window rx_empty wrong_fifo_offset : Fault
  unknown_word_write high_without_low : Fault

pub data Result {ℓ} (A : Type ℓ) : Type ℓ where
  ok : A → Result A
  err : Fault → Result A

-- What comes after a step that did not throw.
infixl 5 ◌>>=◌
abbrev pub ◌>>=◌ {ℓ κ} :
    {Before : Type ℓ} {After : Type κ} → Result Before → (Before → Result After) → Result After
err fault >>= next = err fault
ok state >>= next = next state
