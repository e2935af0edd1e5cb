-- ===== src/Tcp/ReadBack.antt =====
-- The request that send_request writes, read back as an HTTP server reads it.
use realflight_bridge.Base.{
  ℕ, ◌≤◌, ◌<◌, ◌≡◌, refl, ap, ◌∙◌, true, false, none, some, [], ◌∷◌, ◌++◌, all, ltb, le→leb, List,
  length, length-append, arith, append_assoc,
}
use realflight_bridge.Outcome.{Result, ok, ◌>>=◌, map_err, ok_or}
use realflight_bridge.Text.{Text, codes, lacks, lacks-append, str_len, str_len-append, char_len}
use realflight_bridge.Text.Number.{show_nat, show_nat-IsNumeral, is_digit}
use realflight_bridge.Text.Search.{slice-middle}
use realflight_bridge.Text.Split.{is_whitespace, eq_ignore_ascii_case}
use realflight_bridge.Text.Utf8.{Bytes, utf8, utf8-append, IsText, is_scalar, encode_char}
use realflight_bridge.Types.{BridgeError}
use realflight_bridge.Net.{Writer, read_line, read_exact, write_all}
use realflight_bridge.Net.Lines.{IsText-append}
use realflight_bridge.Soap.{
  crlf, usize_max, content_length_prefix, build_http_request, parse_content_length,
}
use realflight_bridge.Soap.Headers.{parse_content_length-show_nat, prefix_len, no_len}
use realflight_bridge.Tcp.{read_headers, send_request}
use realflight_bridge.Tcp.Response.{
  is_header, send_lines, announced, response, read_line-crlf, read_headers-lines,
}
use realflight_bridge.Tcp.Requests.{read_exact_all}

abbrev pub IsAscii : Text → Type 0
IsAscii s = all (λ c. ltb c 0x80) s ≡ true

abbrev pub action_header : Text → Text
action_header action = codes "Soapaction: '" ++ (action ++ codes "'")

abbrev pub length_line : Text → Text
length_line envelope = codes "Content-Length: " ++ show_nat (str_len envelope)

abbrev pub type_header : Text
type_header = codes "Content-Type: text/xml;charset=utf-8"

abbrev pub request_headers : Text → Text → List Text
request_headers action envelope = action_header action ∷ length_line envelope ∷ type_header ∷ []

length-encode_char : (c : ℕ) → length (encode_char c) ≡ char_len c
unfolding encode_char char_len
length-encode_char c = ground arith

pub length-utf8 : (s : Text) → length (utf8 s) ≡ str_len s
unfolding utf8 str_len
length-utf8 [] = refl
length-utf8 (c ∷ s) =
    omega (arith, length-append (encode_char c) (utf8 s), length-utf8 s, length-encode_char c)

-- The request as its lines.
request_lines :
    (action envelope : Text)
    → build_http_request action envelope
      ≡ (codes "POST / HTTP/1.1" ++ crlf)
        ++ ((action_header action ++ crlf)
            ++ ((length_line envelope ++ crlf) ++ ((type_header ++ crlf) ++ (crlf ++ envelope))))
unfolding build_http_request
request_lines action envelope =
    ap (λ (t : Text). (codes "POST / HTTP/1.1" ++ crlf) ++ t)
      (ap
        (λ (t : Text).
          t ++ ((length_line envelope ++ crlf) ++ ((type_header ++ crlf) ++ (crlf ++ envelope))))
        action_line)
  where
    action_line : codes "Soapaction: '" ++ (action ++ codes "'\r\n") ≡ action_header action ++ crlf
    action_line = simp append_assoc

-- The bytes of a request are its lines, an empty line, and the envelope.
pub written_lines :
    (action envelope : Text)
    → utf8 (build_http_request action envelope)
      ≡ response (codes "POST / HTTP/1.1") (request_headers action envelope) (utf8 envelope)
unfolding send_lines
written_lines action envelope =
    ap utf8 (request_lines action envelope)
    ∙ rw
        (
          utf8-append (codes "POST / HTTP/1.1" ++ crlf),
          utf8-append (action_header action ++ crlf),
          utf8-append (length_line envelope ++ crlf),
          utf8-append (type_header ++ crlf),
          utf8-append crlf,
        )
        (simp append_assoc)

pub no_length :
    (front rest : Text)
    → str_len front ≡ 15
    → eq_ignore_ascii_case front content_length_prefix ≡ false
    → parse_content_length (front ++ rest) ≡ ok none
unfolding parse_content_length
no_length front rest l d = rw prefix_len (
    rw (le→leb 15 (str_len (front ++ rest)) (omega (arith, str_len-append front rest)))
      (rw (slice-middle [] front rest 0 15 no_len l) (rw d refl)))

action_no_length :
    (action : Text) → IsAscii action → parse_content_length (action_header action ++ crlf) ≡ ok none
unfolding str_len char_len eq_ignore_ascii_case
action_no_length [] h = no_length (codes "Soapaction: ''\r") (codes "\n") refl refl
action_no_length (a ∷ []) h =
    no_length (codes "Soapaction: '" ++ (a ∷ b'\'' ∷ [])) crlf (ground arith) refl
action_no_length (a ∷ b ∷ action) h =
    no_length (codes "Soapaction: '" ++ (a ∷ b ∷ [])) ((action ++ codes "'") ++ crlf) (ground arith)
      refl

type_no_length : parse_content_length (type_header ++ crlf) ≡ ok none
unfolding str_len char_len eq_ignore_ascii_case
type_no_length = no_length (codes "Content-Type: t") _ refl refl

length_announced :
    (envelope : Text)
    → str_len envelope ≤ usize_max
    → parse_content_length (length_line envelope ++ crlf) ≡ ok (some (str_len envelope))
unfolding str_len char_len is_whitespace eq_ignore_ascii_case
length_announced envelope h =
    parse_content_length-show_nat (codes "Content-Length:") (str_len envelope) refl refl refl h

pub IsAscii-IsText : (s : Text) → IsAscii s → IsText s
unfolding is_scalar
IsAscii-IsText [] h = refl
IsAscii-IsText (c ∷ s) h = ground (arith, IsAscii-IsText s)

pub digits_plain : (s : Text) → all is_digit s ≡ true → IsAscii s × (lacks b'\n' s ≡ true)
digits_plain [] h = (refl, refl)
digits_plain (c ∷ s) h = (ground (arith, digits_plain s), ground (arith, digits_plain s))

pub action_header-line :
    (action : Text)
    → IsAscii action
    → lacks b'\n' action ≡ true
    → is_header (action_header action) ≡ true
unfolding is_scalar
action_header-line action h l =
    let text = IsText-append action (codes "'") (IsAscii-IsText action h) refl in
    let line = lacks-append b'\n' action (codes "'") l refl in ground arith

pub length_line-line : (envelope : Text) → is_header (length_line envelope) ≡ true
unfolding is_scalar
length_line-line envelope =
    let (ascii, line) =
      digits_plain (show_nat (str_len envelope)) (show_nat-IsNumeral (str_len envelope)).0 in
    let text = IsAscii-IsText (show_nat (str_len envelope)) ascii in ground arith

-- A request as a server takes it from the stream: the request line, as many bytes as the headers
-- announce, and what is left of the stream.
abbrev pub received : ℕ → Bytes → Result BridgeError (Text × Bytes × Bytes)
received fuel bytes = do
  (line, r₁) ←
      map_err BridgeError.connection (read_line (record { inbound = bytes; failure = none }))
  (content_length, r₂) ← read_headers fuel none r₁
  size ← ok_or content_length (BridgeError.soap_fault (codes "no length"))
  (block, r₃) ← map_err BridgeError.connection (read_exact size r₂)
  ok (line, block, r₃.inbound)

module _ (action envelope : Text) (fuel : ℕ) (ascii : IsAscii action)
    (line : lacks b'\n' action ≡ true) (fits : str_len envelope ≤ usize_max)
    (enough : 3 < fuel) where
  announced-request :
      announced (request_headers action envelope) none ≡ ok (some (str_len envelope))
  unfolding announced
  announced-request =
      rw (action_no_length action ascii)
        (rw (length_announced envelope fits) (rw type_no_length refl))

  read_request_headers :
      read_headers fuel none (record {
        inbound = send_lines (request_headers action envelope) ++ (utf8 crlf ++ utf8 envelope);
        failure = none;
      })
      ≡ ok (some (str_len envelope), record { inbound = utf8 envelope; failure = none })
  read_request_headers =
      read_headers-lines (request_headers action envelope) fuel none (utf8 envelope) none
        (rw (action_header-line action ascii line, length_line-line envelope)
          (unfold is_scalar in refl))
        (omega arith)
      ∙ rw announced-request

  -- What send_request writes is one HTTP request: read by lines up to the empty one, its headers
  -- announce the length of the envelope in bytes, so that the envelope is taken whole and nothing is
  -- left. The action is ASCII without a line feed.
  pub send_request-received :
      (sent : Writer) × (send_request (record { written = []; fault = none }) action envelope
        ≡ ok sent)
      × (received fuel sent.written ≡ ok (codes "POST / HTTP/1.1" ++ crlf, utf8 envelope, []))
  unfolding send_request write_all is_scalar
  send_request-received = (
    record { written = utf8 (build_http_request action envelope); fault = none },
    refl,
    ap (received fuel) (written_lines action envelope)
        ∙ rw (read_line-crlf (codes "POST / HTTP/1.1") _ none refl refl) (
            rw read_request_headers
              (rw (← length-utf8 envelope) (rw (read_exact_all (utf8 envelope))))),
  )
