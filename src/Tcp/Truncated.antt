-- ===== src/Tcp/Truncated.antt =====
-- A server that closes the connection before the empty line: the loop over the headers reads an
-- empty string again and again, and has no other way out.
use realflight_bridge.Base.{
  ℕ, zero, suc, ◌≡◌, refl, ◌∙◌, true, Option, none, List, [], ◌∷◌, ◌++◌, all, arith,
}
use realflight_bridge.Outcome.{ok, spin, >>=_returns}
use realflight_bridge.Text.{Text, text_eq, lacks, str_len, char_len}
use realflight_bridge.Text.Utf8.{utf8, is_scalar, from_utf8}
use realflight_bridge.Net.{read_line}
use realflight_bridge.Soap.{crlf, parse_status_line, parse_content_length}
use realflight_bridge.Tcp.{or_else, read_headers, read_response}
use realflight_bridge.Tcp.Response.{is_header, send_lines, announced, read_line-crlf, header_step}

empty_line :
    read_line (record { inbound = []; failure = none })
    ≡ ok ([], record { inbound = []; failure = none })
unfolding read_line from_utf8
empty_line = refl

no_length : parse_content_length [] ≡ ok none
unfolding parse_content_length str_len char_len
no_length = refl

read_headers_closed :
    (fuel : ℕ) (cl : Option ℕ)
    → read_headers fuel cl (record { inbound = []; failure = none }) ≡ spin
unfolding read_headers text_eq
read_headers_closed zero cl = refl
read_headers_closed (suc fuel) cl = rw empty_line (rw no_length (read_headers_closed fuel cl))

read_headers_truncated :
    (hs : List Text) (fuel : ℕ) (cl found : Option ℕ)
    → all is_header hs ≡ true
    → announced hs cl ≡ ok found
    → read_headers fuel cl (record { inbound = send_lines hs; failure = none }) ≡ spin
unfolding send_lines announced
read_headers_truncated [] fuel cl found i e = read_headers_closed fuel cl
read_headers_truncated (h ∷ hs) zero cl found i e = unfold read_headers in refl
read_headers_truncated (h ∷ hs) (suc fuel) cl found i e =
    let (l, later, here) = >>=_returns _ (parse_content_length (h ++ crlf)) e in
    header_step fuel h (send_lines hs) cl none (ground arith)
    ∙ rw here (read_headers_truncated hs fuel (or_else l cl) found (ground arith) later)

-- A response that is closed within its headers is never answered: however many rounds the loop is
-- given, `read_response` has not returned.
pub read_response_truncated :
    (status : Text) (hs : List Text) (code : ℕ) (found : Option ℕ) (fuel : ℕ)
    → all is_scalar status ≡ true
    → lacks b'\n' status ≡ true
    → all is_header hs ≡ true
    → parse_status_line (status ++ crlf) ≡ ok code
    → announced hs none ≡ ok found
    → read_response fuel
        (record { inbound = utf8 (status ++ crlf) ++ send_lines hs; failure = none })
      ≡ spin
unfolding read_response
read_response_truncated status hs code found fuel v l i s e =
    rw (read_line-crlf status (send_lines hs) none v l)
      (rw s (rw (read_headers_truncated hs fuel none found i e)))
