-- ===== src/Peer/Tftp/Client.antt =====
-- A client of the TFTP server that downloads a file, and a server without faults.
use sprinter_3c509b.Base.{
  ℕ, zero, suc, ◌+◌, true, false, ◌&&◌, Option, none, some, List, [], ◌∷◌, ◌++◌, leb, ltb, ◌==◌,
  if◌then◌else◌, length, drop, Bytes, AllBytes, word_at, high, low, ◌≡◌, ◌<◌,
}
use sprinter_3c509b.Card.{Reply}
use sprinter_3c509b.Frame.Udp.{Datagram, udp_datagram}
use sprinter_3c509b.Peer.Tcp.Drain.{is_nil}
use sprinter_3c509b.Peer.Tftp.{
  TftpOptions, Download, Server, server_tid, text_until_zero, is_request_port, respond_tftp,
}

-- A server with none of the faults of a scenario, and its files.
abbrev pub calm : Option ℕ → List (Bytes × Bytes) → TftpOptions
calm tid files = record {
  port = none;
  extra_ports = none;
  server_tid = tid;
  mac = none;
  ip = none;
  files = files;
  drop_packets = 0;
  drop_packet_numbers = [];
  drop_responses = 0;
  drop_response_numbers = [];
  bad_checksum = false;
  unknown_tid = false;
  unknown_tid_malformed = false;
  unknown_tid_malformed_at = none;
  unknown_tid_dally = false;
  duplicate = false;
  reorder = false;
  error = none;
  fallback = false;
  oversized_oack = false;
  block_size = none;
}

-- The bytes of a block, from the datagram that carries it.
abbrev pub block_data : ℕ → Option Datagram → Option Bytes
block_data block none = none
block_data block (some d) =
    if word_at d.payload 0 == 3 && word_at d.payload 2 == block
    then some (drop 4 d.payload)
    else none

abbrev pub with_front : Bytes → Option Bytes → Option Bytes
with_front front none = none
with_front front (some rest) = some (front ++ rest)

-- A short block ends the file.
abbrev pub continue : ℕ → Option Bytes → Option Bytes → Option Bytes
continue size none rest = none
continue size (some block) rest =
    if ltb (length block) size then some block else with_front block rest

module _ (tid : Option ℕ) (files : List (Bytes × Bytes)) (client : Datagram) where
  -- The acknowledgement of a block.
  abbrev pub ack_of : ℕ → Datagram
  ack_of ack = record client {
    destination_port = server_tid (calm tid files);
    payload = 0 ∷ 4 ∷ high ack ∷ low ack ∷ [];
  }

  -- The first answer, unless it is lost on its way.
  abbrev pub receive : ℕ → List Reply → Option Bytes
  receive block [] = none
  receive block (r ∷ _) = if r.lost then none else block_data block (udp_datagram r.frame)

  -- The client: acknowledge a block, take the next one, up to a short one.
  unfoldable pub fetch : ℕ → ℕ → ℕ → Server → Option Bytes
  fetch size zero ack s = none
  fetch size (suc fuel) ack s =
      let r = respond_tftp (calm tid files) (ack_of ack) s in
      let rest = fetch size fuel (ack + 1) r.0 in continue size (receive (ack + 1) r.1) rest

  -- The addresses and ports of client and server fit their fields.
  pub record FitsWire : Type 0 where
    pub ether_length : length client.ether_source ≡ 6
    pub client_length : length client.source ≡ 4
    pub client_bytes : AllBytes client.source
    pub server_length : length client.destination ≡ 4
    pub server_bytes : AllBytes client.destination
    pub client_port : client.source_port < 65536
    pub server_port : server_tid (calm tid files) < 65536

  -- A request of the name, to one of the server's ports.
  pub record Asks (opcode : ℕ) (name : Bytes) (asked : Datagram) : Type 0 where
    pub on_port : is_request_port (calm tid files) asked.destination_port ≡ true
    pub is_long : leb 2 (length asked.payload) ≡ true
    pub is_opcode : word_at asked.payload 0 ≡ opcode
    pub has_name : text_until_zero (drop 2 asked.payload) ≡ some name
    pub not_empty : is_nil name ≡ false

  -- The session that a read request opens.
  abbrev pub opened : Datagram → Bytes → Bytes → Download
  opened asked name file = record {
    name = name;
    file = file;
    block_size = 1428;
    client_port = asked.source_port;
    final_block = none;
    reordered = false;
  }
