-- ===== src/Peer/Ftp/Commands/Passive.antt =====
-- The PASV reply, as a client reads it.
use sprinter_3c509b.Base.{
  ℕ, zero, suc, ◌+◌, ◌-◌, ◌*◌, ◌/◌, ◌%◌, ◌<◌, ◌≡◌, refl, sym, ap, ◌∙◌, true, false, ◌&&◌, [], ◌∷◌,
  ◌++◌, List, arith, ltb, leb, if◌then◌else◌, if_true, if_false, ltb→lt, Bool-cases, inl, inr, drop,
  Bytes, byte_at, high, low,
}
use sprinter_3c509b.Peer.Ftp.{pasv, FtpOptions, FtpState}
use sprinter_3c509b.Peer.Ftp.Commands.{
  verb_of, host_of, passive_reply, next_port, take_port, compute_ftp_reply, reply_to,
}
use sprinter_3c509b.Peer.Tcp.{Connection}
use sprinter_3c509b.Peer.Text.{word_of, argument_of, digits, decimal, upper}

-- A decimal number, and what is behind it.
abbrev pub read_number : ℕ → Bytes → ℕ × Bytes
read_number n [] = (n, [])
read_number n (c ∷ cs) =
    let longer = read_number (n * 10 + (c - 48)) cs in
    if leb 48 c && leb c 57 then longer else (n, c ∷ cs)

-- So many numbers, with one byte behind each of them.
abbrev pub read_fields : ℕ → Bytes → List ℕ
read_fields zero bytes = []
read_fields (suc count) bytes =
    let (n, behind) = read_number 0 bytes in n ∷ read_fields count (drop 1 behind)

-- The numbers between the parentheses of the reply, which stand behind 27 bytes.
unfoldable pub read_passive : Bytes → List ℕ
read_passive reply = read_fields 6 (drop 27 reply)

is_digit : (d : ℕ) → d < 10 → leb 48 (48 + d) && leb (48 + d) 57 ≡ true
is_digit d h = ground arith

read_digit :
    (acc d : ℕ) (behind : Bytes)
    → d < 10
    → read_number acc ((48 + d) ∷ behind) ≡ read_number (acc * 10 + d) behind
read_digit acc d behind h =
    let value : acc * 10 + (48 + d - 48) ≡ acc * 10 + d = omega arith in
    if_true (leb 48 (48 + d) && leb (48 + d) 57) (read_number (acc * 10 + (48 + d - 48)) behind)
      (acc, (48 + d) ∷ behind) (is_digit d h)
    ∙ ap (λ n. read_number n behind) value

read_digits :
    (fuel n : ℕ) (behind : Bytes)
    → n < fuel
    → read_number 0 (digits fuel n behind) ≡ read_number n behind
read_digits zero n behind h = absurd (omega arith)
read_digits (suc fuel) n behind h = elim (Bool-cases (ltb n 10)) [
  | inl e ↦
      ap (read_number 0) (if_true (ltb n 10) ((48 + n) ∷ behind) longer e)
      ∙ (read_digit 0 n behind (ltb→lt n 10 e) ∙ ap (λ m. read_number m behind) start)
  | inr e ↦
      let value : n / 10 * 10 + n % 10 ≡ n = omega arith in
      ap (read_number 0) (if_false (ltb n 10) ((48 + n) ∷ behind) longer e)
      ∙ (read_digits fuel (n / 10) ((48 + n % 10) ∷ behind) (smaller e)
          ∙ (read_digit (n / 10) (n % 10) behind (omega arith)
              ∙ ap (λ m. read_number m behind) value))
]
  where
    start : 0 * 10 + n ≡ n
    start = omega arith

    longer : Bytes
    longer = digits fuel (n / 10) ((48 + n % 10) ∷ behind)

    smaller : ltb n 10 ≡ false → n / 10 < fuel
    smaller e = ground arith

digits-append :
    (fuel n : ℕ) (behind more : Bytes)
    → digits fuel n behind ++ more ≡ digits fuel n (behind ++ more)
digits-append zero n behind more = refl
digits-append (suc fuel) n behind more = elim (Bool-cases (ltb n 10)) [
  | inl e ↦ rw e refl
  | inr e ↦ rw e (digits-append fuel (n / 10) ((48 + n % 10) ∷ behind) more)
]

-- Text behind a number starts with no digit.
read_decimal :
    (n c : ℕ) (behind : Bytes)
    → leb 48 c && leb c 57 ≡ false
    → read_number 0 (decimal n ++ (c ∷ behind)) ≡ (n, c ∷ behind)
unfolding decimal
read_decimal n c behind h =
    ap (read_number 0) (digits-append (suc n) n [] (c ∷ behind))
    ∙ (read_digits (suc n) n (c ∷ behind) (omega arith)
        ∙ if_false (leb 48 c && leb c 57) (read_number (n * 10 + (c - 48)) behind) (n, c ∷ behind)
            h)

read_field :
    (count n c : ℕ) (behind : Bytes)
    → leb 48 c && leb c 57 ≡ false
    → read_fields (suc count) (decimal n ++ (c ∷ behind)) ≡ n ∷ read_fields count behind
read_field count n c behind h =
    ap (λ (r : ℕ × Bytes). r.0 ∷ read_fields count (drop 1 r.1)) (read_decimal n c behind h)

-- The six numbers are those that were printed.
passive_reply-read :
    (ip : Bytes) (port : ℕ)
    → read_passive (passive_reply ip port)
      ≡ byte_at ip 0 ∷ byte_at ip 1 ∷ byte_at ip 2 ∷ byte_at ip 3 ∷ high port % 256 ∷ low port ∷ []
unfolding read_passive
passive_reply-read ip port =
    read_field 5 (byte_at ip 0) 44 _ refl
    ∙ ap (◌∷◌ (byte_at ip 0)) (
        read_field 4 (byte_at ip 1) 44 _ refl
        ∙ ap (◌∷◌ (byte_at ip 1)) (
            read_field 3 (byte_at ip 2) 44 _ refl
            ∙ ap (◌∷◌ (byte_at ip 2)) (
                read_field 2 (byte_at ip 3) 44 _ refl
                ∙ ap (◌∷◌ (byte_at ip 3)) (
                    read_field 1 (high port % 256) 44 _ refl
                    ∙ ap (◌∷◌ (high port % 256)) (read_field 0 (low port) 41 _ refl)))))

two_bytes : (port : ℕ) → port < 65536 → high port % 256 * 256 + low port ≡ port
two_bytes port small = omega arith

passive :
    (ftp : FtpOptions) (line : Bytes) (c : Connection) (s : FtpState)
    → verb_of (upper (word_of line)) ≡ pasv
    → ftp.pasv_garbled ≡ false
    → compute_ftp_reply ftp line c s
      ≡ (passive_reply (host_of ftp.data_ip c.last_segment) (next_port ftp s), take_port ftp s)
unfolding compute_ftp_reply reply_to
passive ftp line c s verb sound =
    let name = upper (word_of line) in
    ap (λ v. reply_to ftp v name (argument_of line) c s) verb
    ∙ if_false ftp.pasv_garbled _
        (passive_reply (host_of ftp.data_ip c.last_segment) (next_port ftp s), take_port ftp s)
        sound

-- A client that reads the six numbers of the reply to PASV finds the host, and the port that the
-- server takes from then on for its data channel. The reply is not garbled, and the port is below
-- 2^16.
pub compute_ftp_reply-passive :
    (ftp : FtpOptions) (line : Bytes) (c : Connection) (s : FtpState)
    → verb_of (upper (word_of line)) ≡ pasv
    → ftp.pasv_garbled ≡ false
    → (compute_ftp_reply ftp line c s).1.data_port < 65536
    → let answer = compute_ftp_reply ftp line c s in
      let ip = host_of ftp.data_ip c.last_segment in
      (a b : ℕ) × (read_passive answer.0
        ≡ byte_at ip 0 ∷ byte_at ip 1 ∷ byte_at ip 2 ∷ byte_at ip 3 ∷ a ∷ b ∷ [])
      × (a * 256 + b ≡ answer.1.data_port)
compute_ftp_reply-passive ftp line c s verb sound small =
    let ip = host_of ftp.data_ip c.last_segment in
    let port = next_port ftp s in
    let e : compute_ftp_reply ftp line c s ≡ (passive_reply ip port, take_port ftp s) =
      passive ftp line c s verb sound in
    let taken : (compute_ftp_reply ftp line c s).1.data_port ≡ port =
      ap (λ (r : Bytes × FtpState). r.1.data_port) e in
    (
      high port % 256,
      low port,
      ap (λ (r : Bytes × FtpState). read_passive r.0) e ∙ passive_reply-read ip port,
      two_bytes port (rw (← taken) small) ∙ sym taken,
    )
