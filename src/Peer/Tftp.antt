-- ===== src/Peer/Tftp.antt =====
-- `respondTftp`: the TFTP server, with its one session.
pub mod Client
pub mod Blocks
pub mod Turns
pub mod Fetch
pub mod Store
mod Tests
use sprinter_3c509b.Base.{
  pos, ℕ, ◌+◌, ◌-◌, ◌*◌, ◌%◌, Bool, true, false, not, ◌&&◌, ◌||◌, Option, none, some, List, [], ◌∷◌,
  ◌++◌, leb, ltb, ◌==◌, if◌then◌else◌, length, drop, slice, Bytes, byte_at, word_at, high, low,
  flip, or_default, or_nonzero,
}
use sprinter_3c509b.Card.{Reply}
use sprinter_3c509b.Frame.Udp.{Datagram, UdpOptions, build_udp_reply}
use sprinter_3c509b.Peer.Tcp.{at_once}
use sprinter_3c509b.Peer.Tcp.Drain.{includes, is_nil}
use sprinter_3c509b.Peer.Text.{decimal, named, joined, with_value}

-- The fields of `scenario.tftp`. A number that the source tests by `||` is 0 where it is missing;
-- the code and the message of `error` are 0 and empty where the source puts its own in.
pub record TftpOptions : Type 0 where
  pub port : Option ℕ
  pub extra_ports : Option (List ℕ)
  pub server_tid : Option ℕ
  pub mac : Option Bytes
  pub ip : Option Bytes
  pub files : List (Bytes × Bytes)
  pub drop_packets : ℕ
  pub drop_packet_numbers : List ℕ
  pub drop_responses : ℕ
  pub drop_response_numbers : List ℕ
  pub bad_checksum : Bool
  pub unknown_tid : Bool
  pub unknown_tid_malformed : Bool
  pub unknown_tid_malformed_at : Option ℕ
  pub unknown_tid_dally : Bool
  pub duplicate : Bool
  pub reorder : Bool
  pub error : Option (ℕ × Bytes)
  pub fallback : Bool
  pub oversized_oack : Bool
  pub block_size : Option ℕ

-- A session of mode `get` and one of mode `put`.
pub record Download : Type 0 where
  pub name : Bytes
  pub file : Bytes
  pub block_size : ℕ
  pub client_port : ℕ
  pub final_block : Option ℕ
  pub reordered : Bool

pub record Upload : Type 0 where
  pub name : Bytes
  pub chunks : List Bytes
  pub expected : ℕ
  pub block_size : ℕ
  pub client_port : ℕ

pub data Session : Type 0 where
  get : Download → Session
  put : Upload → Session

pub record Server : Type 0 where
  pub packet_count : ℕ
  pub response_count : ℕ
  pub session : Option Session
  pub uploads : List (Bytes × Bytes)

abbrev pub server_tid : TftpOptions → ℕ
server_tid o = or_default o.server_tid 0xbeef

-- `((serverTid + 1) & 0xffff) || 1`
abbrev pub other_tid : TftpOptions → ℕ
other_tid o = or_nonzero (some ((server_tid o + 1) % 65536)) 1

abbrev pub is_request_port : TftpOptions → ℕ → Bool
is_request_port o port =
    port == or_nonzero o.port 69 || includes (or_default o.extra_ports (6969 ∷ [])) port

-- The file name of a request: the bytes up to a 0, as ASCII; `none` where there is no 0.
abbrev pub with_first : ℕ → Option Bytes → Option Bytes
with_first c none = none
with_first c (some cs) = some (c ∷ cs)

abbrev pub text_until_zero : Bytes → Option Bytes
text_until_zero [] = none
text_until_zero (b ∷ bs) = if b == 0 then some [] else with_first (b % 128) (text_until_zero bs)

-- `packet`, with the damage of `queue`.
abbrev pub packet_options : TftpOptions → Datagram → ℕ → Bytes → UdpOptions
packet_options o request port body = record {
  mac = some (or_default o.mac (2 ∷ 0 ∷ 0 ∷ 0 ∷ 0 ∷ 44 ∷ []));
  ip = some (or_default o.ip request.destination);
  payload = some body;
  corrupt_payload = false;
  source_port = some port;
  destination_port = none;
  ttl = none;
  foreign_source = false;
  foreign_destination = false;
  bad_ip_checksum = false;
  bad_udp_checksum = false;
  udp_length_delta = pos 0;
}

-- The number of a block, and what the file holds there. Block 0, which a count beyond 65535 wraps
-- to, is empty.
abbrev pub block_of : Download → ℕ → Bytes
block_of d block =
    let start = (block - 1) * d.block_size in
    if block == 0 then [] else slice start (start + d.block_size) d.file

abbrev pub data_packet : Download → ℕ → Bytes
data_packet d block = 0 ∷ 3 ∷ high block ∷ low block ∷ block_of d block

-- A short block is the last one.
abbrev pub note_final : Download → ℕ → Download
note_final d block =
    if ltb (length (block_of d block)) d.block_size
    then record d { final_block = some block }
    else d

abbrev pub is_final : Download → ℕ → Bool
is_final d ack = elim d.final_block [ none ↦ false | some block ↦ block == ack ]

-- The text `Remote error`.
abbrev pub remote_error : Bytes
remote_error = 82 ∷ 101 ∷ 109 ∷ 111 ∷ 116 ∷ 101 ∷ 32 ∷ 101 ∷ 114 ∷ 114 ∷ 111 ∷ 114 ∷ []

module _ (o : TftpOptions) (request : Datagram) where
  unfoldable pub queue : Bytes → ℕ → Reply
  queue body port = at_once (build_udp_reply request (packet_options o request port body))

  unfoldable pub queue_damaged : Bytes → ℕ → Reply
  queue_damaged body port =
      at_once (flip 40 (build_udp_reply request (packet_options o request port body)))

  -- The stray packet in front of the second response.
  abbrev pub stray : Bytes → ℕ → List Reply
  stray body count =
      if o.unknown_tid_malformed && count == or_default o.unknown_tid_malformed_at 2
      then queue (0 ∷ []) (other_tid o) ∷ []
      else if o.unknown_tid && count == 2
      then queue body (other_tid o) ∷ []
      else []

  -- A response, with what a scenario sends around it.
  unfoldable pub emit : Bytes → Server → Server × List Reply
  unfolding queue queue_damaged
  emit body s =
      let count = s.response_count + 1 in
      let tid = server_tid o in
      let damaged = if o.bad_checksum && count == 1 then queue_damaged body tid ∷ [] else [] in
      let again = if o.duplicate then queue body tid ∷ [] else [] in
      (
        record s { response_count = count },
        if leb count o.drop_responses || includes o.drop_response_numbers count
            then []
            else damaged ++ (stray body count ++ (queue body tid ∷ again)),
      )

  abbrev pub error_packet : ℕ → Bytes → Bytes
  error_packet code message = 0 ∷ 5 ∷ 0 ∷ code ∷ (message ++ (0 ∷ []))

  -- `blksize` and a number.
  abbrev pub oack : Bytes → Bytes
  oack size = 0 ∷ 6 ∷ 98 ∷ 108 ∷ 107 ∷ 115 ∷ 105 ∷ 122 ∷ 101 ∷ 0 ∷ (size ++ (0 ∷ []))

  abbrev pub block_size : ℕ
  block_size = if o.fallback then 512 else or_nonzero o.block_size 1428

  abbrev pub accepted_oack : Bytes
  accepted_oack = oack (if o.oversized_oack then 49 ∷ 52 ∷ 50 ∷ 57 ∷ [] else decimal block_size)

  -- A read request for a file that is there: the options are acknowledged, or the first block goes
  -- out at once.
  unfoldable pub start_get : Bytes → Bytes → Server → Server × List Reply
  unfolding emit
  start_get name file s =
      let d : Download = record {
        name = name;
        file = file;
        block_size = block_size;
        client_port = request.source_port;
        final_block = none;
        reordered = false;
      } in
      if o.oversized_oack || not o.fallback
      then emit accepted_oack (record s { session = some (get d) })
      else emit (data_packet d 1) (record s { session = some (get (note_final d 1)) })

  unfoldable pub start_put : Bytes → Server → Server × List Reply
  unfolding emit
  start_put name s =
      let u : Upload = record {
        name = name;
        chunks = [];
        expected = 1;
        block_size = block_size;
        client_port = request.source_port;
      } in
      emit (if o.oversized_oack || not o.fallback then accepted_oack else 0 ∷ 4 ∷ 0 ∷ 0 ∷ [])
        (record s { session = some (put u) })

  -- The text `File not found`.
  abbrev pub not_found : Bytes
  not_found = 70 ∷ 105 ∷ 108 ∷ 101 ∷ 32 ∷ 110 ∷ 111 ∷ 116 ∷ 32 ∷ 102 ∷ 111 ∷ 117 ∷ 110 ∷ 100 ∷ []

  unfoldable pub start_named : ℕ → Bytes → Server → Server × List Reply
  unfolding start_get start_put
  start_named opcode name s = elim o.error [
    | some (code, message) ↦
        emit
          (error_packet (or_nonzero (some code) 1)
            (if is_nil message then remote_error else message))
          s
    | none ↦
        if opcode == 1
        then elim (named name o.files) [
          | none ↦ emit (error_packet 1 not_found) s
          | some file ↦ start_get name file s
        ]
        else start_put name s
  ]

  unfoldable pub start : ℕ → Server → Server × List Reply
  unfolding start_named
  start opcode s = elim (text_until_zero (drop 2 request.payload)) [
    | none ↦ (s, [])
    | some name ↦ if is_nil name then (s, []) else start_named opcode name s
  ]

  -- The acknowledgement of block `ack`: the next block goes out, and where a scenario reorders the
  -- one behind it first.
  unfoldable pub on_ack : Download → ℕ → Server → Server × List Reply
  unfolding emit
  on_ack d ack s =
      let next = (ack + 1) % 65536 in
      let early = (ack + 2) % 65536 in
      let plain =
        emit (data_packet d next) (record s { session = some (get (note_final d next)) }) in
      let d1 = note_final (record d { reordered = true }) early in
      let turned =
        emit (data_packet d next) (record s { session = some (get (note_final d1 next)) }) in
      if is_final d ack
      then (s, if o.unknown_tid_dally then queue (0 ∷ []) (other_tid o) ∷ [] else [])
      else if o.reorder && not d.reordered
      then (turned.0, queue (data_packet d early) (server_tid o) ∷ turned.1)
      else plain

  -- A block of an upload: one that is expected is kept, and a short one ends the file. Every block
  -- is acknowledged.
  unfoldable pub take_block : Upload → ℕ → Bytes → Server → Server
  take_block u block bytes s =
      let chunks = u.chunks ++ (bytes ∷ []) in
      let taken : Upload = record u { chunks = chunks; expected = (u.expected + 1) % 65536 } in
      if not (block == u.expected)
      then s
      else if ltb (length bytes) u.block_size
      then record s {
        session = some (put taken);
        uploads = with_value u.name (joined chunks) s.uploads;
      }
      else record s { session = some (put taken) }

  unfoldable pub on_data : Upload → Server → Server × List Reply
  unfolding take_block emit
  on_data u s =
      emit (0 ∷ 4 ∷ byte_at request.payload 2 ∷ byte_at request.payload 3 ∷ [])
        (take_block u (word_at request.payload 2) (drop 4 request.payload) s)

  -- A packet to the session's port.
  unfoldable pub on_session : ℕ → Session → Server → Server × List Reply
  unfolding on_ack on_data
  on_session opcode (get d) s =
      if opcode == 4 && length request.payload == 4
      then on_ack d (word_at request.payload 2) s
      else (s, [])
  on_session opcode (put u) s =
      if opcode == 3 && leb 4 (length request.payload) then on_data u s else (s, [])

  abbrev pub in_session : ℕ → Server → Option Session → Server × List Reply
  in_session opcode s none = (s, [])
  in_session opcode s (some session) = on_session opcode session s

  unfoldable pub respond_tftp : Server → Server × List Reply
  unfolding start on_session
  respond_tftp s =
      let port = request.destination_port in
      let opcode = if leb 2 (length request.payload) then word_at request.payload 0 else 0 in
      let s1 = record s { packet_count = s.packet_count + 1 } in
      if not (is_request_port o port || port == server_tid o)
      then (s, [])
      else if leb s1.packet_count o.drop_packets || includes o.drop_packet_numbers s1.packet_count
      then (s1, [])
      else if (opcode == 1 || opcode == 2) && is_request_port o port
      then start opcode s1
      else if not (port == server_tid o)
      then (s1, [])
      else in_session opcode s1 s1.session
