-- ===== src/Tracker/Http.antt =====
-- src/tracker/http.rs: `HttpClient`.
-- The `url` crate's parser, DNS, TCP and TLS are parameters; text is a list of its bytes, and
-- `is_utf8` is `std`'s test of them. A line is lowered in ASCII, since no other character is lowered
-- to a letter of the name that it is compared with.
pub mod Headers
pub mod Responses
use iron_peer_417project_pri.Base.{
  ℕ, zero, suc, ◌+◌, ◌^◌, List, [], ◌∷◌, ◌++◌, Option, none, some, Bool, true, false, not, ◌&&◌,
  ◌||◌, ◌==◌, ltb, leb, if◌then◌else◌, Result, ok, err, length, take, same_bytes, get_or, ◌-◌,
}
use iron_peer_417project_pri.Tracker.Text.{starts_with, split, parse_unsigned}

pub data HttpError : Type 0 where
  invalid_url missing_host unsupported_scheme io_error unexpected_eof : HttpError
  request_failed : List ℕ → HttpError

-- A connection: whether the request can be written, the bytes that come back, and whether reading
-- fails behind them instead of finding the end.
pub record HttpStream : Type 0 where
  pub writes : Bool
  pub response : List ℕ
  pub breaks : Bool

-- How a request ends. `out_of_fuel` stands for a loop that has not ended, and `panicked` for a panic.
pub data Outcome : Type 0 where
  answered : Result HttpError (List ℕ) → Outcome
  panicked : Outcome
  out_of_fuel : Outcome

-- The bytes up to a line feed, with it, and those behind.
unfoldable pub take_line : List ℕ → List ℕ × List ℕ
take_line [] = ([], [])
take_line (b ∷ bs) =
    let (line, rest) = take_line bs in if b == 10 then (b ∷ [], bs) else (b ∷ line, rest)

unfoldable pub has_feed : List ℕ → Bool
has_feed [] = false
has_feed (b ∷ bs) = b == 10 || has_feed bs

-- `line == "\r\n" || line == "\n"`
abbrev pub is_blank : List ℕ → Bool
is_blank line = same_bytes line (13 ∷ 10 ∷ []) || same_bytes line (10 ∷ [])

unfoldable pub to_lowercase : List ℕ → List ℕ
to_lowercase [] = []
to_lowercase (b ∷ bs) = (if leb 65 b && ltb b 91 then b + 32 else b) ∷ to_lowercase bs

-- How many bytes the white space has that a text starts with, in UTF-8: 0 where there is none. These
-- are the characters of `char::is_whitespace`.
unfoldable pub space_at : List ℕ → ℕ
space_at text =
    let b = get_or text 0 0 in
    let c = get_or text 1 0 in
    let d = get_or text 2 0 in
    if b == 32 || (leb 9 b && ltb b 14)
    then 1
    else if b == 194 && (c == 133 || c == 160)
    then 2
    else if b == 225 && c == 154 && d == 128
    then 3
    else if b == 226 && c == 128 && ((leb 128 d && ltb d 139) || d == 168 || d == 169 || d == 175)
    then 3
    else if b == 226 && c == 129 && d == 159
    then 3
    else if b == 227 && c == 128 && d == 128
    then 3
    else 0

-- `trim_start`, behind some bytes of a white space.
unfoldable pub trim_from : ℕ → List ℕ → List ℕ
trim_from k [] = []
trim_from (suc k) (b ∷ bs) = trim_from k bs
trim_from zero (b ∷ bs) =
    let n = space_at (b ∷ bs) in let rest = trim_from (n - 1) bs in if n == 0 then b ∷ bs else rest

unfoldable pub trim_start : List ℕ → List ℕ
unfolding trim_from
trim_start text = trim_from 0 text

abbrev pub is_nil : List ℕ → Bool
is_nil [] = true
is_nil (b ∷ bs) = false

-- A text up to where there is nothing but white space.
unfoldable pub trim_end : List ℕ → List ℕ
trim_end [] = []
trim_end (b ∷ bs) = let rest = trim_end bs in if is_nil (trim_start (b ∷ bs)) then [] else b ∷ rest

-- `line.split(':').nth(1)`, trimmed and parsed as a usize.
abbrev pub second_number : List (List ℕ) → Option ℕ
second_number [] = none
second_number (p ∷ []) = none
second_number (p ∷ val ∷ ps) = parse_unsigned (2 ^ 64) (trim_end (trim_start val))

-- "content-length:"
abbrev pub content_length_name : List ℕ
content_length_name =
    99 ∷ 111 ∷ 110 ∷ 116 ∷ 101 ∷ 110 ∷ 116 ∷ 45 ∷ 108 ∷ 101 ∷ 110 ∷ 103 ∷ 116 ∷ 104 ∷ 58 ∷ []

abbrev pub or_before : Option ℕ → Option ℕ → Option ℕ
or_before none before = before
or_before (some n) before = some n

-- `content_length` after a header.
unfoldable pub with_header : List ℕ → Option ℕ → Option ℕ
with_header line content_length =
    if starts_with (to_lowercase line) content_length_name
    then or_before (second_number (split 58 line)) content_length
    else content_length

-- "HTTP/1.1 200" or "HTTP/1.0 200"
unfoldable pub is_success : List ℕ → Bool
is_success status_line =
    starts_with status_line (72 ∷ 84 ∷ 84 ∷ 80 ∷ 47 ∷ 49 ∷ 46 ∷ 49 ∷ 32 ∷ 50 ∷ 48 ∷ 48 ∷ [])
    || starts_with status_line (72 ∷ 84 ∷ 84 ∷ 80 ∷ 47 ∷ 49 ∷ 46 ∷ 48 ∷ 32 ∷ 50 ∷ 48 ∷ 48 ∷ [])

-- Read the body: what `read_exact` or `read_to_end` makes of the bytes behind the headers. A vector
-- of more than isize::MAX bytes cannot be: `resize` panics.
unfoldable pub read_body : Bool → Option ℕ → List ℕ → Outcome
read_body breaks (some len) bytes =
    if leb (2 ^ 63) len
    then panicked
    else if ltb (length bytes) len
    then answered (err (if breaks then io_error else unexpected_eof))
    else answered (ok (take len bytes))
read_body breaks none bytes = answered (if breaks then err io_error else ok bytes)

module _ (is_utf8 : List ℕ → Bool) where
  -- `read_line`, which at the end answers what is left, the empty line at last.
  unfoldable pub read_line : Bool → List ℕ → Result HttpError (List ℕ × List ℕ)
  read_line breaks bytes =
      let (line, rest) = take_line bytes in
      if breaks && not (has_feed line)
      then err io_error
      else if is_utf8 line
      then ok (line, rest)
      else err io_error

  -- The loop over the headers, and then the body.
  unfoldable pub read_headers : ℕ → Bool → List ℕ → Option ℕ → Outcome
  read_headers zero breaks bytes content_length = out_of_fuel
  read_headers (suc fuel) breaks bytes content_length = elim (read_line breaks bytes) [
    | err e ↦ answered (err e)
    | ok next ↦
        let again = read_headers fuel breaks next.1 (with_header next.0 content_length) in
        if is_blank next.0 then read_body breaks content_length next.1 else again
  ]

  unfoldable pub perform_request : ℕ → HttpStream → Outcome
  perform_request fuel stream = elim stream.writes [
    | false ↦ answered (err io_error)
    | true ↦ elim (read_line stream.breaks stream.response) [
      | err e ↦ answered (err e)
      | ok status ↦
          let headers = read_headers fuel stream.breaks status.1 none in
          if not (is_success status.0)
          then answered (err (request_failed (trim_end (trim_start status.0))))
          else headers
    ]
  ]

-- What the `url` crate finds in a URL.
pub record Url : Type 0 where
  pub host_str : Option (List ℕ)
  pub scheme : List ℕ
  pub path : List ℕ
  pub query : Option (List ℕ)
  pub port : Option ℕ

abbrev pub or_default : Option ℕ → ℕ → ℕ
or_default none d = d
or_default (some n) d = n

abbrev pub or_root : List ℕ → List ℕ
or_root [] = 47 ∷ []
or_root (b ∷ bs) = b ∷ bs

abbrev pub question : Option (List ℕ) → List ℕ
question none = []
question (some q) = 63 ∷ q

-- "GET {path}{?query} HTTP/1.1\r\nHost: {host}\r\nConnection: close\r\n
--  User-Agent: IronPeer/0.1.0\r\n\r\n"
unfoldable pub request_text : Url → List ℕ → List ℕ
request_text url host =
    (71 ∷ 69 ∷ 84 ∷ 32 ∷ [])
    ++ (or_root url.path
        ++ (question url.query
            ++ ((32 ∷ 72 ∷ 84 ∷ 84 ∷ 80 ∷ 47 ∷ 49 ∷ 46 ∷ 49 ∷ 13 ∷ 10 ∷ 72 ∷ 111 ∷ 115 ∷ 116 ∷ 58
                  ∷ 32 ∷ [])
                ++ (host
                    ++ (13 ∷ 10 ∷ 67 ∷ 111 ∷ 110 ∷ 110 ∷ 101 ∷ 99 ∷ 116 ∷ 105 ∷ 111 ∷ 110 ∷ 58 ∷ 32
                        ∷ 99 ∷ 108 ∷ 111 ∷ 115 ∷ 101 ∷ 13 ∷ 10 ∷ 85 ∷ 115 ∷ 101 ∷ 114 ∷ 45 ∷ 65
                        ∷ 103 ∷ 101 ∷ 110 ∷ 116 ∷ 58 ∷ 32 ∷ 73 ∷ 114 ∷ 111 ∷ 110 ∷ 80 ∷ 101 ∷ 101
                        ∷ 114 ∷ 47 ∷ 48 ∷ 46 ∷ 49 ∷ 46 ∷ 48 ∷ 13 ∷ 10 ∷ 13 ∷ 10 ∷ [])))))

-- `connect` opens a connection, over TLS where the first argument says so, to a host and a port,
-- and is given the request; a none is an error.
module _ (is_utf8 : List ℕ → Bool) (parse : List ℕ → Option Url)
    (connect : Bool → List ℕ → ℕ → List ℕ → Option HttpStream) where
  abbrev pub on_stream : ℕ → Option HttpStream → Outcome
  on_stream fuel none = answered (err io_error)
  on_stream fuel (some stream) = perform_request is_utf8 fuel stream

  -- "http" and "https"
  unfoldable pub get_from : ℕ → Url → List ℕ → Outcome
  get_from fuel url host =
      if same_bytes url.scheme (104 ∷ 116 ∷ 116 ∷ 112 ∷ [])
      then on_stream fuel (connect false host (or_default url.port 80) (request_text url host))
      else if same_bytes url.scheme (104 ∷ 116 ∷ 116 ∷ 112 ∷ 115 ∷ [])
      then on_stream fuel (connect true host (or_default url.port 443) (request_text url host))
      else answered (err unsupported_scheme)

  unfoldable pub get : ℕ → List ℕ → Outcome
  get fuel url_str = elim (parse url_str) [
    | none ↦ answered (err invalid_url)
    | some url ↦ elim url.host_str [
      | none ↦ answered (err missing_host)
      | some host ↦ get_from fuel url host
    ]
  ]
