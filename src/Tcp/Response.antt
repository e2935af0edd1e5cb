-- ===== src/Tcp/Response.antt =====
-- Reading an HTTP response as a server writes it, and what happens when it ends too early.
use realflight_bridge.Base.{
  ℕ, zero, suc, ◌<◌, ◌≡◌, refl, sym, ap, ◌∙◌, Bool, true, false, not, ◌&&◌, Option, none, List, [],
  ◌∷◌, ◌++◌, length, all, arith, append_assoc,
}
use realflight_bridge.Outcome.{Result, ok, ◌>>=◌, map_err, ok_or, >>=_congr, >>=_assoc}
use realflight_bridge.Text.{Text, codes, text_eq, text_eq_refl, lacks, lacks-append}
use realflight_bridge.Text.Utf8.{Bytes, utf8, IsText, is_scalar}
use realflight_bridge.Types.{BridgeError, IoError}
use realflight_bridge.Net.{read_line, read_exact}
use realflight_bridge.Net.Lines.{read_line-utf8, IsText-append}
use realflight_bridge.Soap.{
  SoapResponse, crlf, parse_status_line, parse_content_length, create_response,
}
use realflight_bridge.Tcp.{or_else, read_headers, read_response}

abbrev pub is_empty : Text → Bool
is_empty [] = true
is_empty (_ ∷ _) = false

-- A header line without its end: not empty, and free of line feeds.
abbrev pub is_header : Text → Bool
is_header h = not (is_empty h) && (all is_scalar h && lacks b'\n' h)

-- Header lines as they are sent.
unfoldable pub send_lines : List Text → Bytes
send_lines [] = []
send_lines (h ∷ hs) = utf8 (h ++ crlf) ++ send_lines hs

-- The content length that header lines announce: the last one counts.
unfoldable pub announced : List Text → Option ℕ → Result BridgeError (Option ℕ)
announced [] cl = ok cl
announced (h ∷ hs) cl = do found ← parse_content_length (h ++ crlf); announced hs (or_else found cl)

pub not-crlf : (h : Text) → is_empty h ≡ false → text_eq (h ++ crlf) crlf ≡ false
unfolding text_eq
not-crlf [] e = cc
not-crlf (c ∷ []) e = ground arith
not-crlf (c ∷ x ∷ []) e = ground arith
not-crlf (c ∷ x ∷ y ∷ h) e = ground arith

-- One line, with its end, is read as it was sent.
pub read_line-crlf :
    (h : Text) (rest : Bytes) (failure : Option IoError)
    → IsText h
    → lacks b'\n' h ≡ true
    → read_line (record { inbound = utf8 (h ++ crlf) ++ rest; failure = failure })
      ≡ ok (h ++ crlf, record { inbound = rest; failure = failure })
read_line-crlf h rest failure v l = rw (← append_assoc h (b'\r' ∷ []) (b'\n' ∷ [])) (
    read_line-utf8 (h ++ b'\r' ∷ []) rest failure (IsText-append h _ v return-IsText)
      (lacks-append b'\n' h (b'\r' ∷ []) l refl))
  where
    return-IsText : IsText (b'\r' ∷ [])
    return-IsText = unfold is_scalar in refl

pub header_step :
    (fuel : ℕ) (h : Text) (rest : Bytes) (cl : Option ℕ) (failure : Option IoError)
    → is_header h ≡ true
    → read_headers (suc fuel) cl (record { inbound = utf8 (h ++ crlf) ++ rest; failure = failure })
      ≡ (do
        found ← parse_content_length (h ++ crlf)
        read_headers fuel (or_else found cl) (record { inbound = rest; failure = failure }))
unfolding read_headers
header_step fuel h rest cl failure i =
    rw (read_line-crlf h rest failure (ground arith) (ground arith))
      (rw (not-crlf h (ground arith)))

headers_end :
    (fuel : ℕ) (cl : Option ℕ) (rest : Bytes) (failure : Option IoError)
    → read_headers (suc fuel) cl (record { inbound = utf8 crlf ++ rest; failure = failure })
      ≡ ok (cl, record { inbound = rest; failure = failure })
unfolding read_headers
headers_end fuel cl rest failure =
    rw (read_line-crlf [] rest failure refl refl) (rw (text_eq_refl crlf))

-- Headers up to the empty line, with enough fuel.
pub read_headers-lines :
    (hs : List Text) (fuel : ℕ) (cl : Option ℕ) (rest : Bytes) (failure : Option IoError)
    → all is_header hs ≡ true
    → length hs < fuel
    → read_headers fuel cl
        (record { inbound = send_lines hs ++ (utf8 crlf ++ rest); failure = failure })
      ≡ (do found ← announced hs cl; ok (found, record { inbound = rest; failure = failure }))
unfolding send_lines announced
read_headers-lines [] zero cl rest failure i l = absurd (omega arith)
read_headers-lines (h ∷ hs) zero cl rest failure i l = absurd (omega arith)
read_headers-lines [] (suc fuel) cl rest failure i l = headers_end fuel cl rest failure
read_headers-lines (h ∷ hs) (suc fuel) cl rest failure i l =
    ap (λ bs. read_headers (suc fuel) cl (record { inbound = bs; failure = failure }))
      (append_assoc (utf8 (h ++ crlf)) (send_lines hs) (utf8 crlf ++ rest))
    ∙ header_step fuel h _ cl failure (ground arith)
    ∙ >>=_congr (parse_content_length (h ++ crlf)) _ _ (λ found.
      read_headers-lines hs fuel (or_else found cl) rest failure (ground arith) (omega arith))
    ∙ sym (>>=_assoc (parse_content_length (h ++ crlf)) _ _)

-- A response as a server sends it: a status line, header lines, an empty line, and the body.
abbrev pub response : Text → List Text → Bytes → Bytes
response status hs body = utf8 (status ++ crlf) ++ (send_lines hs ++ (utf8 crlf ++ body))

-- What the client makes of the parts.
abbrev pub understood : Text → List Text → Bytes → Result BridgeError SoapResponse
understood status hs body = do
  code ← parse_status_line (status ++ crlf)
  found ← announced hs none
  size ← ok_or found (BridgeError.soap_fault (codes "Missing Content-Length header"))
  (block, _) ←
      map_err BridgeError.connection (read_exact size (record { inbound = body; failure = none }))
  ok (create_response code block)

-- A response that is sent whole is read as what its parts say: the code of its status line, the last
-- length that a header announces, and as many bytes of what follows as the length says, with the
-- error of the first part that is wrong. One round of fuel for each header line and one for the empty
-- line are enough.
pub read_response-response :
    (status : Text) (hs : List Text) (body : Bytes) (fuel : ℕ)
    → all is_scalar status ≡ true
    → lacks b'\n' status ≡ true
    → all is_header hs ≡ true
    → length hs < fuel
    → read_response fuel (record { inbound = response status hs body; failure = none })
      ≡ understood status hs body
unfolding read_response
read_response-response status hs body fuel v l i n =
    rw (read_line-crlf status (send_lines hs ++ (utf8 crlf ++ body)) none v l) (
      >>=_congr (parse_status_line (status ++ crlf)) _ _ (λ code.
        rw (read_headers-lines hs fuel none body none i n) (>>=_assoc (announced hs none) _ _)))
