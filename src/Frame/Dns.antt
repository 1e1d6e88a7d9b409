-- ===== src/Frame/Dns.antt =====
-- `buildDnsReply`: the answer to a DNS query in a UDP datagram.
use sprinter_3c509b.Base.{
  ℤ, ℕ, zero, suc, ◌+◌, ◌-◌, ◌%◌, Bool, false, not, ◌||◌, Option, none, some, [], ◌∷◌, ◌++◌, max,
  bit_or, bit_xor, ltb, leb, ◌==◌, if◌then◌else◌, length, take, slice, replicate, Bytes, byte_at,
  word_at, high, low, or_default, or_nonzero,
}
use sprinter_3c509b.Frame.Udp.{Datagram, UdpOptions, build_udp_reply}

-- The fields of `options` that `buildDnsReply` reads. `padding_before_answer` is 0 where it is
-- missing, and so is `udp_length_delta`.
pub record DnsOptions : Type 0 where
  pub stale_id : Bool
  pub nxdomain : Bool
  pub rcode : Option ℕ
  pub cname_before_answer : Bool
  pub padding_before_answer : ℕ
  pub no_answer : Bool
  pub address : Option Bytes
  pub pointer_loop : Bool
  pub pointer_oob : Bool
  pub cname_only : Bool
  pub truncated : Bool
  pub source_port : Option ℕ
  pub destination_port : Option ℕ
  pub bad_checksum : Bool
  pub udp_length_delta : ℤ

-- The loop over the labels of the name, from `cursor` on: the place of the closing 0, or `none`
-- where a label does not fit. Each round moves on by at least two bytes.
unfoldable pub name_end : ℕ → Bytes → ℕ → Option ℕ
name_end zero query cursor = some cursor
name_end (suc fuel) query cursor =
    let size = byte_at query cursor in
    let rest = name_end fuel query (cursor + 1 + size) in
    if leb (length query) cursor || size == 0
    then some cursor
    else if ltb 63 size || ltb (length query) (cursor + 1 + size)
    then none
    else rest

-- The place behind the name of a query that asks for one address and nothing else.
unfoldable pub question_end : Bytes → Option ℕ
unfolding name_end
question_end query =
    if ltb (length query) 17 then none else elim (name_end (length query) query 12) [
      | none ↦ none
      | some at ↦
          let cursor = at + 1 in
          if leb (length query) at || not (byte_at query at == 0)
          then none
          else if not (cursor + 4 == length query)
              || not (byte_at query cursor == 0)
              || not (byte_at query (cursor + 1) == 1)
              || not (byte_at query (cursor + 2) == 0)
              || not (byte_at query (cursor + 3) == 1)
          then none
          else some cursor
    ]

abbrev pub reply_code : DnsOptions → ℕ
reply_code o = if o.nxdomain then 3 else or_nonzero o.rcode 0

-- How many answers the reply has.
abbrev pub answer_count : DnsOptions → ℕ
answer_count o =
    if not (reply_code o == 0) || o.no_answer
    then 0
    else if o.cname_before_answer || not (o.padding_before_answer == 0)
    then 2
    else 1

-- A compression pointer to the name of the question.
abbrev pub to_question : Bytes
to_question = 0xc0 ∷ 0x0c ∷ []

-- The records before the answer that count.
unfoldable pub prefix_records : DnsOptions → Bytes
prefix_records o =
    let cname =
      if o.cname_before_answer
      then 0xc0 ∷ 0x0c ∷ 0 ∷ 5 ∷ 0 ∷ 1 ∷ 0 ∷ 0 ∷ 0 ∷ 60 ∷ 0 ∷ 2 ∷ 0xc0 ∷ 0x0c ∷ []
      else [] in
    let size = o.padding_before_answer in
    let padding =
      if size == 0
      then []
      else 0xc0
        ∷ 0x0c
        ∷ 0
        ∷ 16
        ∷ 0
        ∷ 1
        ∷ 0
        ∷ 0
        ∷ 0
        ∷ 60
        ∷ low (high size)
        ∷ low size
        ∷ replicate size 0x41 in
    cname ++ padding

-- The last record; `at` is its place in the message, where a pointer loop points.
unfoldable pub answer_record : DnsOptions → ℕ → Bytes
answer_record o at =
    let address = or_default o.address (192 ∷ 168 ∷ 7 ∷ 44 ∷ []) in
    let name =
      if o.pointer_loop
      then bit_or 0xc0 (high at % 64) ∷ low at ∷ []
      else if o.pointer_oob
      then 0xff ∷ 0xff ∷ []
      else to_question in
    name
    ++ (0
        ∷ (if o.cname_only then 5 else 1)
        ∷ 0
        ∷ 1
        ∷ 0
        ∷ 0
        ∷ 0
        ∷ 60
        ∷ 0
        ∷ (if o.cname_only then 2 else 4)
        ∷ (if o.cname_only then to_question else address))

-- The message, up to `cursor` the place behind the query's name.
unfoldable pub dns_message : Bytes → ℕ → DnsOptions → Bytes
unfolding prefix_records answer_record
dns_message query cursor o =
    let question = slice 12 (cursor + 4) query in
    let id = if o.stale_id then bit_xor (word_at query 0) 1 else word_at query 0 in
    let answers = answer_count o in
    let start =
      high id
      ∷ low id
      ∷ 0x81
      ∷ bit_or 0x80 (reply_code o)
      ∷ 0
      ∷ 1
      ∷ 0
      ∷ answers
      ∷ 0
      ∷ 0
      ∷ 0
      ∷ 0
      ∷ question in
    let before = start ++ prefix_records o in
    let full = if answers == 0 then start else before ++ answer_record o (length before) in
    if o.truncated then take (max 12 (length full - 3)) full else full

-- The options that are passed on to `buildUdpReply`.
abbrev pub dns_transport : Datagram → DnsOptions → Bytes → UdpOptions
dns_transport request o payload = record {
  mac = none;
  ip = none;
  payload = some payload;
  corrupt_payload = false;
  source_port = some (or_default o.source_port 53);
  destination_port = some (or_default o.destination_port request.source_port);
  ttl = none;
  foreign_source = false;
  foreign_destination = false;
  bad_ip_checksum = false;
  bad_udp_checksum = o.bad_checksum;
  udp_length_delta = o.udp_length_delta;
}

unfoldable pub build_dns_reply : Datagram → DnsOptions → Option Bytes
unfolding question_end dns_message build_udp_reply
build_dns_reply request o = elim (question_end request.payload) [
  | none ↦ none
  | some cursor ↦
      some
        (build_udp_reply request (dns_transport request o (dns_message request.payload cursor o)))
]
