-- ===== src/Peer/Respond/Tests.antt =====
-- The dispatcher at a scenario with ARP.
use sprinter_3c509b.Base.{true, false, none, some, [], ◌∷◌, AllBytes, ok, arith, Bytes, ◌≡◌, refl}
use sprinter_3c509b.Frame.Arp.{ArpOptions, is_arp_request, build_arp_request, build_arp_reply}
use sprinter_3c509b.Card.{Card, accepts}
use sprinter_3c509b.Card.New.{Setup, new_card}
use sprinter_3c509b.Card.Fifo.{fresh}
use sprinter_3c509b.Card.Fifo.Accept.{entry, tx_bytes}
use sprinter_3c509b.Peer.Ftp.{FtpState, nobody}
use sprinter_3c509b.Peer.Respond.Wire.{transmit_frame-arp}
use sprinter_3c509b.Peer.Respond.{respond, wire}
use sprinter_3c509b.Peer.Respond.ArpOnly.{respond-arp}
use sprinter_3c509b.Peer.Scenario.{ArpPart, Parts, Network}
use sprinter_3c509b.Peer.Tcp.{at_once}

abbrev options : ArpOptions
options = record {
  mac = none;
  ip = none;
  bad_ether_source = false;
  foreign_destination = false;
  bad_opcode_high = false;
  requester_mac = none;
  requester_ip = none;
}

abbrev part : ArpPart
part = record { options = options; is_silent = false; drop = 0; request_before_reply = false }

abbrev parts : Parts
parts = record {
  dhcp = none;
  arp = some part;
  icmp = none;
  tcp = none;
  ftp = none;
  dns = none;
  ntp = none;
  tftp = none;
  udp = none;
}

abbrev ftp : FtpState
ftp = record {
  requests = [];
  upload_chunks = [];
  data_port = 0;
  pasv_count = 0;
  control = nobody;
  pending = none;
  data_bytes_sent = 0;
}

abbrev network : Network
network = record {
  dhcp_discover_count = 0;
  dhcp_request_count = 0;
  dhcp_release_count = 0;
  arp_request_count = 0;
  icmp_request_count = 0;
  dns_request_count = 0;
  ntp_request_count = 0;
  udp_request_count = 0;
  tcp = record {
    tally = record {
      request_count = 0;
      syn_count = 0;
      data_count = 0;
      reset_ports = [];
      data_segments_sent = 0;
      lost_data_segments = 0;
      hole_window_changes = 0;
      retransmitted_segments = 0;
      max_in_flight = 0;
      max_data_burst = 0;
      max_client_in_flight = 0;
      http_requests = [];
      http_bytes_sent = 0;
    };
    connections = [];
  };
  ftp = ftp;
  tftp = record { packet_count = 0; response_count = 0; session = none; uploads = [] };
}

abbrev question : Bytes
question = build_arp_request (0 ∷ 0 ∷ 0 ∷ 0 ∷ 0 ∷ 0 ∷ []) (192 ∷ 168 ∷ 7 ∷ 1 ∷ []) options

respond-arp_example :
    respond parts question network
    ≡ (record network { arp_request_count = 1 }, at_once (build_arp_reply question options) ∷ [])
unfolding build_arp_request is_arp_request
respond-arp_example = respond-arp parts part question network refl refl

abbrev setup : Setup
setup = record {
  scenario = record {
    tx_never_complete = false;
    tx_completion_status = none;
    tx_completion_delay_reads = 0;
    tx_stale_statuses = [];
    tx_free_blocked = false;
    tx_free_delay_reads = 0;
    rx_fifo_bytes = none;
  };
  card_present = true;
  base = none;
  eeprom_base = none;
  mac = none;
  eeprom_patch = [];
  tx_available = none;
  rx_frames = [];
  link = true;
  link_delay = 0;
}

-- A card in window 1, ready to send and to receive.
abbrev card : Card Network
card = record (new_card setup network) {
  window = 1;
  tx_enabled = true;
  rx_enabled = true;
  rx_filter = 5;
  station = 2 ∷ 0 ∷ 0 ∷ 0 ∷ 0 ∷ 2 ∷ [];
}

question_bytes : AllBytes question
unfolding build_arp_request
question_bytes = ground arith

transmit_frame-arp_example :
    (d : Card Network) × (tx_bytes (wire parts) card (entry question) ≡ ok d)
    × (d.transmitted ≡ question ∷ [])
    × (d.peer ≡ record network { arp_request_count = 1 })
    × (d.rx_queue ≡ fresh (build_arp_reply question options) ∷ [])
unfolding build_arp_request is_arp_request build_arp_reply new_card accepts
transmit_frame-arp_example =
    transmit_frame-arp parts part card question refl refl refl refl refl refl question_bytes
      (omega arith) refl refl refl refl
