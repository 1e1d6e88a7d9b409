-- ===== src/Peer/Ftp.antt =====
-- The FTP mode of the responder: the fields of `scenario.ftp`, what the server remembers, and the
-- options of its two channels. Both are connections of `respondTcp`.
pub mod Commands
pub mod Objects
pub mod Channel
pub mod Lines
pub mod Respond
mod Tests
use sprinter_3c509b.Base.{
  ℕ, Bool, true, false, Option, none, some, List, [], ◌++◌, Bytes, or_default, or_nonzero,
}
use sprinter_3c509b.Card.{Reply}
use sprinter_3c509b.Peer.Tcp.{Connection, Mode, echo, ftp_data, Options, Key, Responder}

pub data Verb : Type 0 where
  user pass type size pasv rest retr stor list nlst quit unknown : Verb

-- `scenario.ftp`. A text or a number that the source tests by `||` is empty or 0 where it is missing.
pub record FtpOptions : Type 0 where
  pub mac : Option Bytes
  pub ip : Option Bytes
  pub port : ℕ
  pub control_window : Option ℕ
  pub data_window : Option ℕ
  pub mss : Option ℕ
  pub response_chunk_size : Option ℕ
  pub data_abort_after_bytes : Option ℕ
  pub data_stall_after_bytes : Option ℕ
  pub suppress_banner : Bool
  pub banner : Bytes
  pub suppress_226 : Bool
  pub listing : Bytes
  pub nlst_listing : Option Bytes
  pub fixtures : List (Bytes × Bytes)
  pub fixture_sizes : List (Bytes × ℕ)
  pub size_bytes : ℕ
  pub refuse_verbs : List Bytes
  pub refuse_replies : List (Bytes × Bytes)
  pub refuse_pass : Bool
  pub refuse_size : Bool
  pub refuse_retr : Bool
  pub refuse_stor : Bool
  pub refuse_list : Bool
  pub user_reply : Option ℕ
  pub pass_reply : Option ℕ
  pub pasv_garbled : Bool
  pub data_port : ℕ
  pub data_ip : Option Bytes
  pub rest_refused : Bool

-- `ftpPendingVerb`
pub record Pending : Type 0 where
  pub verb : Verb
  pub arg : Bytes
  pub needs_push : Bool

-- `ftpControlConn`, a reference to a connection: to the one that the table has under a key, or to
-- one that has left the table, and lives on in this reference alone.
pub data Control : Type 0 where
  nobody : Control
  in_table : Key → Control
  detached : Connection → Control

-- What the FTP mode keeps; a `data_port` of 0 is none.
pub record FtpState : Type 0 where
  pub requests : List Bytes
  pub upload_chunks : List Bytes
  pub data_port : ℕ
  pub pasv_count : ℕ
  pub control : Control
  pub pending : Option Pending
  pub data_bytes_sent : ℕ

-- What one segment is handled on: the TCP responder, the FTP state and the answers so far.
pub record Desk : Type 0 where
  pub responder : Responder
  pub ftp : FtpState
  pub out : List Reply

-- Options of `respondTcp` that ask for nothing.
abbrev pub plain : Options
plain = record {
  mac = none;
  ip = none;
  mode = echo;
  drop = 0;
  drop_syn = 0;
  reset_on_syn = false;
  reset_on_data = false;
  reset_always = false;
  reset_on_syn_at = none;
  reset_on_data_at = none;
  server_isn = none;
  zero_window_probes = 0;
  window = none;
  mss = none;
  drop_data_responses = 0;
  out_of_sequence_rst_before_data = false;
  ack_only_close = false;
  split_close = false;
  response_chunk_size = none;
  max_send_mss = none;
  out_of_order_before_data = false;
  keep_open = false;
  fin_when_drained = false;
  remote_fin_after_data = false;
  corrupt_data_once = none;
  lose_data_segments = none;
  duplicate_data = false;
  out_of_order_fin_after_data = false;
  abort_after_bytes = none;
  stall_after_bytes = none;
  data_delay_polls = 0;
  pages = record { responses = []; response = none };
}

module _ (ftp : FtpOptions) where
  -- `buildFtpControlOptions` and `buildFtpDataOptions`, less their callbacks.
  abbrev pub control_options : Options
  control_options = record plain {
    mac = ftp.mac;
    ip = ftp.ip;
    window = some (or_default ftp.control_window 4096);
  }

  abbrev pub data_options : Options
  data_options = record plain {
    mac = ftp.mac;
    ip = ftp.ip;
    window = some (or_default ftp.data_window 4096);
    mss = some (or_nonzero ftp.mss 536);
    response_chunk_size = ftp.response_chunk_size;
    mode = ftp_data;
    fin_when_drained = true;
    abort_after_bytes = ftp.data_abort_after_bytes;
    stall_after_bytes = ftp.data_stall_after_bytes;
  }

-- More bytes behind what waits to be sent.
abbrev pub append_to_queue : Bytes → Connection → Connection
append_to_queue bytes c = record c { send_queue = c.send_queue ++ bytes }
