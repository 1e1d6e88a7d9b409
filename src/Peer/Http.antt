-- ===== src/Peer/Http.antt =====
-- The answer of the http server to a request: the scenario's table of responses, and the head that is
-- put in front of a body.
mod Tests
use sprinter_3c509b.Base.{
  ℕ, zero, suc, ◌+◌, Bool, true, false, not, ◌&&◌, ◌||◌, Option, none, some, List, [], ◌∷◌, ◌++◌,
  ◌==◌, if◌then◌else◌, leb, length, Bytes, equal,
}
use sprinter_3c509b.Peer.Text.{codes, decimal, or_text, word_of, argument_of}

-- `{body, headers, status, closeDelimited}`; a text that is missing is empty.
pub record Page : Type 0 where
  pub body : Bytes
  pub headers : List (Bytes × Bytes)
  pub status : Bytes
  pub close_delimited : Bool

-- A text or a buffer, which goes out as it is, like that of `{raw}`; or a page.
pub data Response : Type 0 where
  plain : Bytes → Response
  raw : Bytes → Response
  page : Page → Response

-- One response to every request, or a list that is used up from its front.
pub data Entry : Type 0 where
  always : Response → Entry
  in_turn : List Response → Entry

-- `options.responses` and `options.response`.
pub record HttpOptions : Type 0 where
  pub responses : List (Bytes × Entry)
  pub response : Option Entry

-- The text up to its first CRLF.
abbrev pub first_line_of : Bytes → Bytes
first_line_of [] = []
first_line_of (a ∷ []) = a ∷ []
first_line_of (a ∷ b ∷ cs) =
    let rest = first_line_of (b ∷ cs) in if a == 13 && b == 10 then [] else a ∷ rest

-- The second word of the request's line.
abbrev pub target_of : Bytes → Bytes
target_of request = word_of (argument_of (first_line_of request))

-- `toLowerCase`, as far as it concerns a name in ASCII.
abbrev pub lower : Bytes → Bytes
lower [] = []
lower (c ∷ cs) = (if leb 65 c && leb c 90 then c + 32 else c) ∷ lower cs

abbrev pub has_length : List (Bytes × Bytes) → Bool
has_length [] = false
has_length ((name, value) ∷ headers) =
    equal (lower name) (codes "content-length") || has_length headers

abbrev pub crlf : Bytes
crlf = 13 ∷ 10 ∷ []

abbrev pub header_lines : List (Bytes × Bytes) → Bytes
header_lines [] = []
header_lines ((name, value) ∷ headers) =
    name ++ (codes ": " ++ (value ++ (crlf ++ header_lines headers)))

-- The headers of a page, with its length where that is not left to the end of the connection.
abbrev pub headers_of : Page → List (Bytes × Bytes)
headers_of p =
    if not p.close_delimited && not (has_length p.headers)
    then p.headers ++ ((codes "Content-Length", decimal (length p.body)) ∷ [])
    else p.headers

abbrev pub bytes_of : Response → Bytes
bytes_of (plain bytes) = bytes
bytes_of (raw bytes) = bytes
bytes_of (page p) =
    codes "HTTP/1.0 "
    ++ (or_text p.status (codes "200 OK")
        ++ (crlf ++ (header_lines (headers_of p) ++ (crlf ++ p.body))))

abbrev pub missing_page : Bytes
missing_page =
    codes "HTTP/1.0 404 Not Found" ++ (crlf ++ (codes "Content-Length: 0" ++ (crlf ++ crlf)))

-- The entry of a target in the table, and whether it has one.
abbrev pub entry_of : Bytes → List (Bytes × Entry) → Option Entry
entry_of target [] = none
entry_of target ((key, entry) ∷ entries) =
    if equal key target then some entry else entry_of target entries

abbrev pub is_listed : Bytes → List (Bytes × Entry) → Bool
is_listed target [] = false
is_listed target ((key, entry) ∷ entries) = equal key target || is_listed target entries

-- The same entry serves two targets that are equal, or both not in the table.
abbrev pub same_entry : HttpOptions → Bytes → Bytes → Bool
same_entry o a b = if is_listed a o.responses then equal a b else not (is_listed b o.responses)

-- How many of the requests before took from the entry of this target: as many responses are gone
-- from the front of its list.
abbrev pub taken_before : HttpOptions → Bytes → List Bytes → ℕ
taken_before o target [] = 0
taken_before o target (request ∷ requests) =
    let others = taken_before o target requests in
    if same_entry o target (target_of request) then suc others else others

abbrev pub nth : ℕ → List Response → Option Response
nth n [] = none
nth zero (r ∷ rs) = some r
nth (suc n) (r ∷ rs) = nth n rs

abbrev pub response_of : ℕ → Option Entry → Option Response
response_of n none = none
response_of n (some (always r)) = some r
response_of n (some (in_turn rs)) = nth n rs

abbrev pub response_bytes : Option Response → Bytes
response_bytes none = missing_page
response_bytes (some r) = bytes_of r

unfoldable pub http_response : HttpOptions → List Bytes → Bytes → Bytes
unfolding decimal
http_response o before request =
    let target = target_of request in
    let listed = entry_of target o.responses in
    let entry = if is_listed target o.responses then listed else o.response in
    response_bytes (response_of (taken_before o target before) entry)
