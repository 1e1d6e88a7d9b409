-- ===== src/Peer/Tftp/Tests.antt =====
-- The theorems on downloads and uploads at a small file.
use sprinter_3c509b.Base.{
  ℕ, replicate, length-replicate, suc, ◌/◌, none, some, List, [], ◌∷◌, Bytes, length, ◌≡◌, refl,
  arith,
}
use sprinter_3c509b.Frame.Udp.{Datagram}
use sprinter_3c509b.Peer.Tftp.{Server, respond_tftp}
use sprinter_3c509b.Peer.Tftp.Client.{calm, fetch}
use sprinter_3c509b.Peer.Text.{joined, value_of}
use sprinter_3c509b.Peer.Tftp.Store.{send_all, respond_tftp-store}
use sprinter_3c509b.Peer.Tftp.Fetch.{respond_tftp-fetch}

abbrev client : Datagram
client = record {
  ether_source = 2 ∷ 0x60 ∷ 0x8c ∷ 0x12 ∷ 0x34 ∷ 0x56 ∷ [];
  source = 192 ∷ 168 ∷ 7 ∷ 2 ∷ [];
  destination = 192 ∷ 168 ∷ 7 ∷ 44 ∷ [];
  source_port = 1025;
  destination_port = 69;
  payload = 0 ∷ 1 ∷ 65 ∷ 0 ∷ [];
  ip = [];
}

abbrev contents : Bytes
contents = 1 ∷ 2 ∷ 3 ∷ 4 ∷ 5 ∷ []

abbrev files : List (Bytes × Bytes)
files = (97 ∷ [], contents) ∷ []

abbrev server : Server
server = record { packet_count = 0; response_count = 0; session = none; uploads = [] }

-- The client asks for `A`, which is the file `a`.
respond_tftp-fetch_example :
    fetch none files client 1428
      (suc (length contents / 1428))
      0
      (respond_tftp (calm none files) client server).0
    ≡ some contents
respond_tftp-fetch_example =
    respond_tftp-fetch none files client
      (record {
        ether_length = refl;
        client_length = refl;
        client_bytes = (omega arith, (omega arith, (omega arith, (omega arith, tt))));
        server_length = refl;
        server_bytes = (omega arith, (omega arith, (omega arith, (omega arith, tt))));
        client_port = omega arith;
        server_port = omega arith;
      })
      (65 ∷ []) contents client server
      (record {
        on_port = refl;
        is_long = refl;
        is_opcode = refl;
        has_name = refl;
        not_empty = refl;
      })
      refl (omega arith, (omega arith, (omega arith, (omega arith, (omega arith, tt)))))
      (omega arith)

abbrev writer : Datagram
writer = record client { payload = 0 ∷ 2 ∷ 66 ∷ 0 ∷ [] }

-- The client sends `B`, a full block and a short one.
-- The server has an older file of the name.
abbrev used_server : Server
used_server = record server { uploads = (66 ∷ [], 1 ∷ []) ∷ [] }

respond_tftp-store_example :
    value_of
      (66 ∷ [])
      (send_all none files client 1
        (replicate 1428 7 ∷ (contents ∷ []))
        (respond_tftp (calm none files) writer used_server).0).uploads
    ≡ some (joined (replicate 1428 7 ∷ (contents ∷ [])))
respond_tftp-store_example =
    respond_tftp-store none files client (66 ∷ []) writer used_server (replicate 1428 7 ∷ [])
      contents
      (record {
        on_port = refl;
        is_long = refl;
        is_opcode = refl;
        has_name = refl;
        not_empty = refl;
      })
      (omega (arith, length-replicate {0} {A = ℕ} 1428 7), tt) (omega arith) (omega arith) (66 ∷ [])
