-- ===== src/Peer/Ftp/Tests.antt =====
-- An FTP session at a concrete server.
use sprinter_3c509b.Base.{
  ℕ, ◌+◌, ◌*◌, ◌≡◌, refl, true, false, none, List, [], ◌∷◌, ◌++◌, length, Bytes, arith,
}
use sprinter_3c509b.Frame.Tcp.{Segment}
use sprinter_3c509b.Peer.Ftp.Commands.Passive.{read_passive, compute_ftp_reply-passive}
use sprinter_3c509b.Peer.Ftp.Commands.{line_end, verb_of, compute_ftp_reply}
use sprinter_3c509b.Peer.Ftp.Lines.Split.{kept_bytes, handle_all-Read}
use sprinter_3c509b.Peer.Ftp.Lines.Joined.{Read}
use sprinter_3c509b.Peer.Ftp.Lines.Split
use sprinter_3c509b.Peer.Ftp.Respond.{respond_ftp}
use sprinter_3c509b.Peer.Ftp.{FtpOptions, Desk, nobody}
use sprinter_3c509b.Peer.Tcp.{Connection, Tally, Key}
use sprinter_3c509b.Peer.Text.{codes}

abbrev ftp : FtpOptions
ftp = record {
  mac = none;
  ip = none;
  port = 0;
  control_window = none;
  data_window = none;
  mss = none;
  response_chunk_size = none;
  data_abort_after_bytes = none;
  data_stall_after_bytes = none;
  suppress_banner = false;
  banner = [];
  suppress_226 = false;
  listing = [];
  nlst_listing = none;
  fixtures = (codes "f", 1 ∷ 2 ∷ 3 ∷ []) ∷ [];
  fixture_sizes = [];
  size_bytes = 0;
  refuse_verbs = [];
  refuse_replies = [];
  refuse_pass = false;
  refuse_size = false;
  refuse_retr = false;
  refuse_stor = false;
  refuse_list = false;
  user_reply = none;
  pass_reply = none;
  pasv_garbled = false;
  data_port = 0;
  data_ip = none;
  rest_refused = false;
}

abbrev tally : Tally
tally = record {
  request_count = 0;
  syn_count = 0;
  data_count = 0;
  reset_ports = [];
  data_segments_sent = 0;
  lost_data_segments = 0;
  hole_window_changes = 0;
  retransmitted_segments = 0;
  max_in_flight = 0;
  max_data_burst = 0;
  max_client_in_flight = 0;
  http_requests = [];
  http_bytes_sent = 0;
}

abbrev start : Desk
start = record {
  responder = record { tally = tally; connections = [] };
  ftp = record {
    requests = [];
    upload_chunks = [];
    data_port = 0;
    pasv_count = 0;
    control = nobody;
    pending = none;
    data_bytes_sent = 0;
  };
  out = [];
}

abbrev from_client : ℕ → ℕ → ℕ → ℕ → Bytes → Segment
from_client port sequence acknowledgement flags payload = record {
  source = 192 ∷ 168 ∷ 7 ∷ 2 ∷ [];
  destination = 192 ∷ 168 ∷ 7 ∷ 1 ∷ [];
  source_port = 4000;
  destination_port = port;
  sequence = sequence;
  acknowledgement = acknowledgement;
  flags = flags;
  window = 4096;
  payload = payload;
  ether_source = 2 ∷ 0 ∷ 0 ∷ 0 ∷ 0 ∷ 1 ∷ [];
  mss = 536;
}

abbrev connection : Connection
connection = record {
  server_isn = 0x10213040;
  server_next = 0x10213041;
  server_acked = 0x10213041;
  client_next = 101;
  client_mss = 536;
  send_queue = [];
  client_window = 4096;
  established = true;
  advertised_window = 4096;
  fin_sent = false;
  http_request = [];
  http_ready = false;
  last_segment = none;
  aborted = false;
  probes = 0;
  client_in_flight = 0;
  lost_sequences = [];
  hole_ack = none;
  sent_segments = none;
  recover = none;
  duplicate_acks = 0;
  bad_rst_sent = false;
  out_of_order_sent = false;
  corrupt_sent = false;
  bad_fin_sent = false;
  bytes_sent = 0;
  ftp_accum = [];
  bytes_received = 0;
}

abbrev control_key : Key
control_key = record { source = 192 ∷ 168 ∷ 7 ∷ 2 ∷ []; source_port = 4000; destination_port = 21 }

abbrev start_desk : Desk
start_desk = record start {
  responder = record { tally = tally; connections = (control_key, connection) ∷ [] };
}

-- A line in two pieces, and the start of another.
abbrev cut : List Bytes
cut = codes "QU" ∷ (codes "IT" ++ line_end) ∷ codes "NO" ∷ []

-- `ftp` is `scenario.ftp` at the server; a session is the client's segments one by one.
abbrev handle_all : List Segment → Desk → Desk
handle_all [] d = d
handle_all (s ∷ ss) d = handle_all ss (respond_ftp ftp s d)

abbrev greeting : List Segment
greeting =
    from_client 21 100 0 2 []
    ∷ from_client 21 101 0x10213041 0x10 []
    ∷ from_client 21 101 0x10213041 0x18 (codes "PASV" ++ line_end)
    ∷ from_client 30001 200 0 2 []
    ∷ from_client 30001 201 0x10223041 0x10 []
    ∷ from_client 21 107 0x10213041 0x18 (codes "RETR f" ++ line_end)
    ∷ []

-- The client logs in, opens a data channel and asks for the file `f`.
session_requests : (handle_all greeting start).ftp.requests ≡ codes "PASV" ∷ codes "RETR f" ∷ []
unfolding respond_ftp
session_requests = refl

-- The data channel sends the file, and the control channel the reply and the end of the transfer.
session_frames : length (handle_all greeting start).out ≡ 7
unfolding respond_ftp
session_frames = refl

session_sent : (handle_all greeting start).ftp.data_bytes_sent ≡ 3
unfolding respond_ftp
session_sent = refl

-- A second data channel gets the file of the first transfer again as soon as it is established:
-- nothing has asked for it.
abbrev second_channel : List Segment
second_channel =
    from_client 21 115 0x10213041 0x18 (codes "PASV" ++ line_end)
    ∷ from_client 30002 300 0 2 []
    ∷ from_client 30002 301 0x10233041 0x10 []
    ∷ []

second_sent : (handle_all (greeting ++ second_channel) start).ftp.data_bytes_sent ≡ 6
unfolding respond_ftp
second_sent = refl

compute_ftp_reply-passive_example :
    let answer = compute_ftp_reply ftp (codes "pasv") connection start.ftp in
    (a b : ℕ) × (read_passive answer.0 ≡ 127 ∷ 0 ∷ 0 ∷ 1 ∷ a ∷ b ∷ [])
    × (a * 256 + b ≡ answer.1.data_port)
unfolding verb_of compute_ftp_reply
compute_ftp_reply-passive_example =
    compute_ftp_reply-passive ftp (codes "pasv") connection start.ftp refl refl (omega arith)

handle_all-Read_example :
    let e = Split.handle_all ftp control_key cut start_desk in
    Read [] (codes "QUIT" ++ (line_end ++ codes "NO")) (kept_bytes ftp control_key e) e.ftp.requests
handle_all-Read_example = handle_all-Read ftp control_key cut start_desk refl refl
