-- ===== src/Peer/Http/Tests.antt =====
-- The answers of the http server at a small table.
use sprinter_3c509b.Base.{none, false, [], ◌∷◌, ◌++◌, Bytes, ◌≡◌, refl}
use sprinter_3c509b.Peer.Http.{HttpOptions, in_turn, page, plain, crlf, missing_page, http_response}
use sprinter_3c509b.Peer.Text.{codes}

-- The first and the second answer of a list, the end of the list, and a target that is not in the
-- table.
abbrev pages : HttpOptions
pages = record {
  responses =
      (
        codes "/a",
        in_turn (
            page (record { body = 1 ∷ 2 ∷ []; headers = []; status = []; close_delimited = false })
            ∷ plain (3 ∷ [])
            ∷ []),
      )
      ∷ [];
  response = none;
}

abbrev get_a : Bytes
get_a = codes "GET /a HTTP/1.0" ++ (crlf ++ crlf)

first_page :
    http_response pages [] get_a
    ≡ codes "HTTP/1.0 200 OK"
      ++ (crlf ++ (codes "Content-Length: 2" ++ (crlf ++ (crlf ++ (1 ∷ 2 ∷ [])))))
unfolding http_response
first_page = refl

second_page : http_response pages (codes "GET /b" ∷ get_a ∷ []) get_a ≡ 3 ∷ []
unfolding http_response
second_page = refl

third_page : http_response pages (get_a ∷ get_a ∷ []) get_a ≡ missing_page
unfolding http_response
third_page = refl

unknown_page : http_response pages [] (codes "GET /b") ≡ missing_page
unfolding http_response
unknown_page = refl
