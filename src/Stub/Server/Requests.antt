-- ===== src/Stub/Server/Requests.antt =====
-- The stub server reads the request that the SOAP client over TCP writes.
use realflight_bridge.Base.{
  ℕ, zero, suc, ◌≤◌, ◌<◌, ◌≡◌, refl, ap, ◌∙◌, true, false, Option, none, some, List, [], ◌∷◌, ◌++◌,
  all, length, ◌==◌, arith, append_assoc,
}
use realflight_bridge.Outcome.{ok}
use realflight_bridge.Text.{Text, codes, text_eq_refl, lacks, str_len, char_len-pos}
use realflight_bridge.Text.Search.{starts_with}
use realflight_bridge.Text.Split.{is_whitespace, to_ascii_lowercase}
use realflight_bridge.Text.Utf8.{Bytes, utf8, IsText, is_scalar, from_utf8_lossy-utf8}
use realflight_bridge.Soap.{crlf, usize_max}
use realflight_bridge.Soap.Headers.{words, length_value-show_nat}
use realflight_bridge.Tcp.Response.{is_header, not-crlf, send_lines, read_line-crlf}
use realflight_bridge.Tcp.Requests.{read_exact_all}
use realflight_bridge.Tcp.ReadBack.{
  IsAscii, action_header, request_headers, length-utf8, action_header-line, length_line-line,
}
use realflight_bridge.Stub.Server.{
  announced_length, content_length, unwrap_or_zero, read_request_body, pop, is_empty,
}

-- What the header lines announce.
abbrev lengths : List Text → Option ℕ → Option ℕ
lengths [] found = found
lengths (h ∷ hs) found = lengths hs (announced_length (h ++ crlf) found)

content_length-line :
    (h : Text) (fuel : ℕ) (found : Option ℕ) (rest : Bytes)
    → is_header h ≡ true
    → content_length
        (suc fuel)
        found
        (record { inbound = utf8 (h ++ crlf) ++ rest; failure = none })
      ≡ content_length fuel
          (announced_length (h ++ crlf) found)
          (record { inbound = rest; failure = none })
unfolding content_length
content_length-line h fuel found rest i =
    rw (read_line-crlf h rest none (ground arith) (ground arith))
      (rw (not-crlf h (ground arith)) refl)

content_length-end :
    (fuel : ℕ) (found : Option ℕ) (rest : Bytes)
    → content_length (suc fuel) found (record { inbound = utf8 crlf ++ rest; failure = none })
      ≡ ok (unwrap_or_zero found, record { inbound = rest; failure = none })
unfolding content_length
content_length-end fuel found rest =
    rw (read_line-crlf [] rest none refl refl) (rw (text_eq_refl crlf) refl)

-- Headers up to the empty line, with enough fuel.
content_length-lines :
    (hs : List Text) (fuel : ℕ) (found : Option ℕ) (rest : Bytes)
    → all is_header hs ≡ true
    → length hs < fuel
    → content_length fuel found
        (record { inbound = send_lines hs ++ (utf8 crlf ++ rest); failure = none })
      ≡ ok (unwrap_or_zero (lengths hs found), record { inbound = rest; failure = none })
unfolding send_lines
content_length-lines [] zero found rest h l = absurd (omega arith)
content_length-lines (x ∷ hs) zero found rest h l = absurd (omega arith)
content_length-lines [] (suc fuel) found rest h l = content_length-end fuel found rest
content_length-lines (x ∷ hs) (suc fuel) found rest h l =
    ap (λ bs. content_length (suc fuel) found (record { inbound = bs; failure = none }))
      (append_assoc (utf8 (x ++ crlf)) (send_lines hs) (utf8 crlf ++ rest))
    ∙ content_length-line x fuel found _ (ground arith)
    ∙ content_length-lines hs fuel (announced_length (x ++ crlf) found) rest (ground arith)
        (omega arith)

action_announces :
    (action : Text) (found : Option ℕ)
    → announced_length (action_header action ++ crlf) found ≡ found
unfolding announced_length starts_with to_ascii_lowercase
action_announces action found = refl

lengths-request :
    (action envelope : Text)
    → str_len envelope ≤ usize_max
    → lengths (request_headers action envelope) none ≡ some (str_len envelope)
unfolding announced_length starts_with to_ascii_lowercase is_whitespace
lengths-request action envelope h =
    rw (words (codes "Content-Length:") (str_len envelope) refl)
      (length_value-show_nat (str_len envelope) h)

pub pop-last : (front : List Text) (k : Text) → pop (front ++ k ∷ []) ≡ some (k, front)
unfolding pop
pop-last [] k = refl
pop-last (r ∷ front) k = rw (pop-last front k) refl

some_bytes : (s : Text) → is_empty s ≡ false → (str_len s == 0) ≡ false
unfolding str_len
some_bytes [] h = cc
some_bytes (c ∷ s) h = ground (arith, char_len-pos c)

module _ (action envelope : Text) (fuel : ℕ) (ascii : IsAscii action)
    (line : lacks b'\n' action ≡ true) (some_text : is_empty envelope ≡ false)
    (text : IsText envelope) (fits : str_len envelope ≤ usize_max) (enough : 3 < fuel) where
  pub read_request_body-request :
      read_request_body fuel (record {
        inbound = send_lines (request_headers action envelope) ++ (utf8 crlf ++ utf8 envelope);
        failure = none;
      })
      ≡ ok (envelope, record { inbound = []; failure = none })
  unfolding read_request_body
  read_request_body-request =
      rw
        (content_length-lines (request_headers action envelope) fuel none (utf8 envelope)
          (rw (action_header-line action ascii line, length_line-line envelope)
            (unfold is_scalar in refl))
          (omega arith))
        (rw (lengths-request action envelope fits) (
          rw (some_bytes envelope some_text) (
            rw (← length-utf8 envelope) (
              rw (read_exact_all (utf8 envelope)) (rw (from_utf8_lossy-utf8 envelope text) refl)))))
