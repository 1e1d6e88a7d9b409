-- ===== src/Peer/Tcp.antt =====
-- The state of the TCP responder, `respondTcp` and its helpers. Their paths without callbacks, those
-- of the echo and http servers of `scenario.tcp`, are here; Peer/Ftp has the callbacks of FTP.
pub mod Drain
pub mod Recover
pub mod Stages
pub mod Respond
pub mod Credit
use sprinter_3c509b.Peer.Http.{HttpOptions}
use sprinter_3c509b.Base.{
  ℕ, zero, suc, ◌+◌, Bool, true, false, not, ◌&&◌, Option, none, some, List, [], ◌∷◌, ◌++◌, ltb,
  ◌==◌, if◌then◌else◌, Bytes, equal, or_default, add32, sub32,
}
use sprinter_3c509b.Card.{Reply}
use sprinter_3c509b.Frame.Tcp.{Segment, TcpOptions, build_tcp_reply}

-- An entry of `sentSegments`.
pub record Sent : Type 0 where
  pub sequence : ℕ
  pub payload : Bytes
  pub fin : Bool

-- What the responder remembers of a connection. `sent_segments` is `none` until the loss model
-- records a segment, and the last two fields are those of FTP.
pub record Connection : Type 0 where
  pub server_isn : ℕ
  pub server_next : ℕ
  pub server_acked : ℕ
  pub client_next : ℕ
  pub client_mss : ℕ
  pub send_queue : Bytes
  pub client_window : ℕ
  pub established : Bool
  pub advertised_window : ℕ
  pub fin_sent : Bool
  pub http_request : Bytes
  pub http_ready : Bool
  pub last_segment : Option Segment
  pub aborted : Bool
  pub probes : ℕ
  pub client_in_flight : ℕ
  pub lost_sequences : List ℕ
  pub hole_ack : Option ℕ
  pub sent_segments : Option (List Sent)
  pub recover : Option ℕ
  pub duplicate_acks : ℕ
  pub bad_rst_sent : Bool
  pub out_of_order_sent : Bool
  pub corrupt_sent : Bool
  pub bad_fin_sent : Bool
  pub bytes_sent : ℕ
  pub ftp_accum : Bytes
  pub bytes_received : ℕ

pub data Mode : Type 0 where
  echo http drop_all ftp_data : Mode

-- The fields of `scenario.tcp`. A number that the source tests by `||` or `&&` is 0 where it is
-- missing.
pub record Options : Type 0 where
  pub mac : Option Bytes
  pub ip : Option Bytes
  pub mode : Mode
  pub drop : ℕ
  pub drop_syn : ℕ
  pub reset_on_syn : Bool
  pub reset_on_data : Bool
  pub reset_always : Bool
  pub reset_on_syn_at : Option ℕ
  pub reset_on_data_at : Option ℕ
  pub server_isn : Option ℕ
  pub zero_window_probes : ℕ
  pub window : Option ℕ
  pub mss : Option ℕ
  pub drop_data_responses : ℕ
  pub out_of_sequence_rst_before_data : Bool
  pub ack_only_close : Bool
  pub split_close : Bool
  pub response_chunk_size : Option ℕ
  pub max_send_mss : Option ℕ
  pub out_of_order_before_data : Bool
  pub keep_open : Bool
  pub fin_when_drained : Bool
  pub remote_fin_after_data : Bool
  pub corrupt_data_once : Option ℕ
  pub lose_data_segments : Option (List ℕ)
  pub duplicate_data : Bool
  pub out_of_order_fin_after_data : Bool
  pub abort_after_bytes : Option ℕ
  pub stall_after_bytes : Option ℕ
  pub data_delay_polls : ℕ
  pub pages : HttpOptions

-- The counters of the responder.
pub record Tally : Type 0 where
  pub request_count : ℕ
  pub syn_count : ℕ
  pub data_count : ℕ
  pub reset_ports : List ℕ
  pub data_segments_sent : ℕ
  pub lost_data_segments : ℕ
  pub hole_window_changes : ℕ
  pub retransmitted_segments : ℕ
  pub max_in_flight : ℕ
  pub max_data_burst : ℕ
  pub max_client_in_flight : ℕ
  pub http_requests : List Bytes
  pub http_bytes_sent : ℕ

-- The source's key `address:port/port`.
pub record Key : Type 0 where
  pub source : Bytes
  pub source_port : ℕ
  pub destination_port : ℕ

abbrev pub same_key : Key → Key → Bool
same_key a b =
    equal a.source b.source
    && a.source_port == b.source_port
    && a.destination_port == b.destination_port

abbrev pub Connections : Type 0
Connections = List (Key × Connection)

abbrev pub find : Key → Connections → Option Connection
find k [] = none
find k ((j, c) ∷ m) = if same_key j k then some c else find k m

abbrev pub delete : Key → Connections → Connections
delete k [] = []
delete k ((j, c) ∷ m) = if same_key j k then delete k m else (j, c) ∷ delete k m

-- `Map.set`: an existing key keeps its place.
abbrev pub store : Key → Connection → Connections → Connections
store k c [] = (k, c) ∷ []
store k c ((j, d) ∷ m) = if same_key j k then (j, c) ∷ m else (j, d) ∷ store k c m

-- What one call of `respondTcp` works on: the counters, the connection and the answers so far.
pub record Link : Type 0 where
  pub tally : Tally
  pub connection : Connection
  pub out : List Reply

-- The fields of a reply that are not its addresses.
abbrev pub reply_options : Options → ℕ → ℕ → ℕ → ℕ → Bytes → TcpOptions
reply_options o sequence acknowledgement flags window payload = record {
  mac = o.mac;
  ip = o.ip;
  payload = payload;
  sequence = sequence;
  acknowledgement = acknowledgement;
  flags = flags;
  window = some window;
  mss = o.mss;
  ttl = none;
}

-- The closure `queue` of `respondTcp`: the card gets the frame at once.
abbrev pub at_once : Bytes → Reply
at_once frame = record { frame = frame; lost = false; status_error = false; polls = 0 }

-- `deliverData`: the card gets the frame after the scenario's delay.
abbrev pub deliver_data : Options → Bytes → Reply
deliver_data o frame = record {
  frame = frame;
  lost = false;
  status_error = false;
  polls = o.data_delay_polls;
}

-- A frame of the loss model, which never reaches the card.
abbrev pub lost_frame : Bytes → Reply
lost_frame frame = record { frame = frame; lost = true; status_error = false; polls = 0 }

abbrev pub emit : Reply → Link → Link
emit r l = record l { out = l.out ++ (r ∷ []) }

-- What `respondTcp` keeps from one call to the next.
pub record Responder : Type 0 where
  pub tally : Tally
  pub connections : Connections

abbrev pub in_flight : Connection → ℕ
in_flight c = sub32 c.server_next c.server_acked
