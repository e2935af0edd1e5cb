-- ===== src/Stub/Server/Answers.antt =====
-- The SOAP client over TCP reads the response that the stub server writes.
use realflight_bridge.Base.{
  ℕ, ◌≤◌, ◌<◌, ◌≡◌, refl, ap, ◌∙◌, true, none, some, List, [], ◌∷◌, ◌++◌, all, append_assoc,
}
use realflight_bridge.Outcome.{ok}
use realflight_bridge.Text.{Text, codes, lacks, str_len, char_len}
use realflight_bridge.Text.Number.{show_nat, show_nat-IsNumeral}
use realflight_bridge.Text.Split.{is_whitespace, eq_ignore_ascii_case}
use realflight_bridge.Text.Utf8.{utf8-append, utf8, IsText, is_scalar, from_utf8_lossy-utf8}
use realflight_bridge.Net.Lines.{IsText-append}
use realflight_bridge.Soap.{parse_content_length, create_response}
use realflight_bridge.Text.{lacks-append}
use realflight_bridge.Soap.{crlf, usize_max, u32_max}
use realflight_bridge.Soap.Headers.{parse_content_length-show_nat}
use realflight_bridge.Tcp.{read_response}
use realflight_bridge.Tcp.Response.{
  is_header, send_lines, response, read_response-response, announced,
}
use realflight_bridge.Tcp.Requests.{read_exact_all, status_line, status_line-crlf, length_header}
use realflight_bridge.Tcp.ReadBack.{
  length-utf8, no_length, digits_plain, IsAscii-IsText, length_line-line,
}
use realflight_bridge.Stub.Blocking.{response_head}

-- The status line and the header lines of the server's response.
abbrev answer_status : ℕ → Text
answer_status code = status_line (codes "HTTP/1.1") code (codes "OK")

abbrev answer_headers : Text → List Text
answer_headers file =
    codes "Server: gSOAP/2.7"
    ∷ codes "Content-Type: text/xml; charset=utf-8"
    ∷ length_header (codes "Content-Length:") (str_len file)
    ∷ codes "Connection: close"
    ∷ []

answer_text :
    (code : ℕ) (file : Text)
    → response_head (show_nat code) (str_len file) ++ file
      ≡ (answer_status code ++ crlf)
        ++ ((codes "Server: gSOAP/2.7" ++ crlf)
            ++ ((codes "Content-Type: text/xml; charset=utf-8" ++ crlf)
                ++ ((length_header (codes "Content-Length:") (str_len file) ++ crlf)
                    ++ ((codes "Connection: close" ++ crlf) ++ (crlf ++ file)))))
unfolding response_head
answer_text code file = simp append_assoc

-- The bytes of a response are its lines, an empty line, and the file.
answer_bytes :
    (code : ℕ) (file : Text)
    → utf8 (response_head (show_nat code) (str_len file) ++ file)
      ≡ response (answer_status code) (answer_headers file) (utf8 file)
unfolding send_lines
answer_bytes code file =
    ap utf8 (answer_text code file)
    ∙ rw
        (
          utf8-append (answer_status code ++ crlf),
          utf8-append (codes "Server: gSOAP/2.7" ++ crlf),
          utf8-append (codes "Content-Type: text/xml; charset=utf-8" ++ crlf),
          utf8-append (length_header (codes "Content-Length:") (str_len file) ++ crlf),
          utf8-append (codes "Connection: close" ++ crlf),
          utf8-append crlf,
        )
        (simp append_assoc)

server_no_length : parse_content_length (codes "Server: gSOAP/2.7" ++ crlf) ≡ ok none
unfolding str_len char_len eq_ignore_ascii_case
server_no_length = no_length (codes "Server: gSOAP/2") (codes ".7\r\n") refl refl

type_no_length :
    parse_content_length (codes "Content-Type: text/xml; charset=utf-8" ++ crlf) ≡ ok none
unfolding str_len char_len eq_ignore_ascii_case
type_no_length = no_length (codes "Content-Type: t") _ refl refl

close_no_length : parse_content_length (codes "Connection: close" ++ crlf) ≡ ok none
unfolding str_len char_len eq_ignore_ascii_case
close_no_length = no_length (codes "Connection: clo") (codes "se\r\n") refl refl

announced-answer :
    (file : Text)
    → str_len file ≤ usize_max
    → announced (answer_headers file) none ≡ ok (some (str_len file))
unfolding announced str_len char_len is_whitespace eq_ignore_ascii_case
announced-answer file h =
    rw
      (
        server_no_length,
        type_no_length,
        parse_content_length-show_nat (codes "Content-Length:") (str_len file) refl refl refl h,
        close_no_length,
      )
      refl

answer_status_line :
    (code : ℕ) → IsText (answer_status code) × (lacks b'\n' (answer_status code) ≡ true)
unfolding is_scalar
answer_status_line code =
    let (ascii, line) = digits_plain (show_nat code) (show_nat-IsNumeral code).0 in
    (
      IsText-append (codes "HTTP/1.1 ") (show_nat code ++ codes " OK") refl
          (IsText-append (show_nat code) (codes " OK") (IsAscii-IsText (show_nat code) ascii) refl),
      lacks-append b'\n' (codes "HTTP/1.1 ") (show_nat code ++ codes " OK") refl
          (lacks-append b'\n' (show_nat code) (codes " OK") line refl),
    )

answer_headers_lines : (file : Text) → all is_header (answer_headers file) ≡ true
unfolding is_scalar
answer_headers_lines file = rw (length_line-line file) refl

pub read_response-answer_bytes :
    (code : ℕ) (file : Text) (fuel : ℕ)
    → code ≤ u32_max
    → IsText file
    → str_len file ≤ usize_max
    → 4 < fuel
    → read_response fuel (record {
      inbound = utf8 (response_head (show_nat code) (str_len file) ++ file);
      failure = none;
    })
      ≡ ok (record { status_code = code; body = file })
unfolding create_response
read_response-answer_bytes code file fuel c v h l =
    ap (λ bs. read_response fuel (record { inbound = bs; failure = none })) (answer_bytes code file)
    ∙ read_response-response (answer_status code) (answer_headers file) (utf8 file) fuel
        (answer_status_line code).0 (answer_status_line code).1 (answer_headers_lines file) l
    ∙ rw (status_line-crlf (codes "HTTP/1.1") code (codes "OK") (unfold is_whitespace in refl) c) (
        rw (announced-answer file h) (
          rw (← length-utf8 file)
            (rw (read_exact_all (utf8 file)) (rw (from_utf8_lossy-utf8 file v) refl))))
