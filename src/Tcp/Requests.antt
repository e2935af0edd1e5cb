-- ===== src/Tcp/Requests.antt =====
-- One whole request: what a correct server's answer gives, and what the counters say.
use realflight_bridge.Base.{
  ℕ, ◌+◌, ◌≤◌, ◌<◌, ◌≡◌, refl, sym, ap, ◌∙◌, true, Option, none, some, List, [], ◌∷◌, ◌++◌, length,
  length-append, all, arith, append_assoc, append-nil,
}
use realflight_bridge.Outcome.{Result, ok, ◌>>=◌, >>=_congr, >>=_assoc}
use realflight_bridge.Text.{Text, lacks, str_len}
use realflight_bridge.Text.Number.{show_nat}
use realflight_bridge.Text.Split.{IsWord, eq_ignore_ascii_case}
use realflight_bridge.Text.Utf8.{Bytes, utf8, IsText, is_scalar, from_utf8_lossy-utf8}
use realflight_bridge.Types.{BridgeError}
use realflight_bridge.Net.{Reader, Writer, read_exact, write_all}
use realflight_bridge.Net.Lines.{read_exact-append}
use realflight_bridge.Soap.{
  crlf, u32_max, usize_max, content_length_prefix, parse_status_line, parse_content_length,
  create_response,
}
use realflight_bridge.Soap.Headers.{parse_status_line-show_nat, parse_content_length-show_nat}
use realflight_bridge.Statistics.{increment_request_count}
use realflight_bridge.Tcp.{
  or_else, read_response, send_request, TcpSoapClient, respond, request_over, send_action,
}
use realflight_bridge.Tcp.Response.{
  is_header, announced, response, understood, read_response-response,
}

announced-append :
    (hs ks : List Text) (cl : Option ℕ)
    → announced (hs ++ ks) cl ≡ (do found ← announced hs cl; announced ks found)
unfolding announced
announced-append [] ks cl = refl
announced-append (h ∷ hs) ks cl =
    >>=_congr (parse_content_length (h ++ crlf)) _ _
      (λ found. announced-append hs ks (or_else found cl))
    ∙ sym (>>=_assoc (parse_content_length (h ++ crlf)) _ _)

-- A status line and a length header in the usual form.
abbrev pub status_line : Text → ℕ → Text → Text
status_line version code reason = version ++ (b' ' ∷ (show_nat code ++ (b' ' ∷ reason)))

abbrev pub length_header : Text → ℕ → Text
length_header name n = name ++ (b' ' ∷ show_nat n)

announced_last :
    (name : Text) (n : ℕ) (cl : Option ℕ)
    → IsWord name
    → eq_ignore_ascii_case name content_length_prefix ≡ true
    → str_len name ≡ 15
    → n ≤ usize_max
    → announced (length_header name n ∷ []) cl ≡ ok (some n)
unfolding announced
announced_last name n cl w e l h =
    rw (append_assoc name (b' ' ∷ show_nat n) crlf)
      (rw (parse_content_length-show_nat name n w e l h))

pub status_line-crlf :
    (version : Text) (code : ℕ) (reason : Text)
    → IsWord version
    → code ≤ u32_max
    → parse_status_line (status_line version code reason ++ crlf) ≡ ok code
status_line-crlf version code reason w h =
    ap parse_status_line (simp append_assoc)
    ∙ parse_status_line-show_nat version (reason ++ crlf) code w h

pub read_exact_all :
    (block : Bytes)
    → read_exact (length block) (record { inbound = block; failure = none })
      ≡ ok (block, record { inbound = []; failure = none })
read_exact_all block =
    ap (λ bs. read_exact (length block) (record { inbound = bs; failure = none }))
      (sym (append-nil block))
    ∙ read_exact-append block [] none

-- What a correct server sends: any header lines that the client can read, then the length of the
-- body, and the body itself.
pub record IsAnswer (version reason name : Text) (code : ℕ) (hs : List Text) (body : Text)
    : Type 0 where
  pub version_word : IsWord version
  pub code_fits : code ≤ u32_max
  pub status_text : all is_scalar (status_line version code reason) ≡ true
  pub status_line_feed : lacks b'\n' (status_line version code reason) ≡ true
  pub headers_lines : all is_header (hs ++ (length_header name (length (utf8 body)) ∷ [])) ≡ true
  pub other_length : Option ℕ
  pub headers_read : announced hs none ≡ ok other_length
  pub name_word : IsWord name
  pub name_is : eq_ignore_ascii_case name content_length_prefix ≡ true
  pub name_len : str_len name ≡ 15
  pub length_fits : length (utf8 body) ≤ usize_max
  pub body_text : IsText body

abbrev pub answer : (version reason name : Text) (code : ℕ) (hs : List Text) (body : Text) → Bytes
answer version reason name code hs body =
    response (status_line version code reason)
      (hs ++ (length_header name (length (utf8 body)) ∷ [])) (utf8 body)

module _ (version reason name : Text) (code : ℕ) (hs : List Text) (body : Text)
    (a : IsAnswer version reason name code hs body) where
  announced-answer :
      announced (hs ++ (length_header name (length (utf8 body)) ∷ [])) none
      ≡ ok (some (length (utf8 body)))
  announced-answer =
      announced-append hs (length_header name (length (utf8 body)) ∷ []) none
      ∙ ap (λ m. m >>= announced (length_header name (length (utf8 body)) ∷ [])) a.headers_read
      ∙ announced_last name (length (utf8 body)) a.other_length a.name_word a.name_is a.name_len
          a.length_fits

  understood-answer :
      understood
        (status_line version code reason)
        (hs ++ (length_header name (length (utf8 body)) ∷ []))
        (utf8 body)
      ≡ ok (record { status_code = code; body = body })
  unfolding create_response
  understood-answer = rw (status_line-crlf version code reason a.version_word a.code_fits) (
      rw announced-answer (
        rw (read_exact_all (utf8 body)) (
          ap (λ text. ok (record { status_code = code; body = text }))
            (from_utf8_lossy-utf8 body a.body_text))))

  -- The answer of a correct server is read as its status code and its body, whatever other headers it
  -- has, in which order and in which case, with one round of fuel for each line.
  pub read_response-answer :
      (fuel : ℕ)
      → length hs + 1 < fuel
      → read_response fuel
          (record { inbound = answer version reason name code hs body; failure = none })
        ≡ ok (record { status_code = code; body = body })
  read_response-answer fuel n =
      read_response-response (status_line version code reason)
        (hs ++ (length_header name (length (utf8 body)) ∷ [])) (utf8 body) fuel a.status_text
        a.status_line_feed a.headers_lines
        (omega (arith, length-append hs (length_header name (length (utf8 body)) ∷ [])))
      ∙ understood-answer

module _ {P : Type 0} (version reason name : Text) (code : ℕ) (hs : List Text) (body : Text)
    (a : IsAnswer version reason name code hs body) where
  -- One request over a connection whose server answers correctly: the response is the server's, the
  -- request is counted once, and the pool is left as it was after it gave the connection.
  pub send_action-answer :
      (get_connection : P → Result BridgeError (Reader × Writer) × P) (fuel : ℕ)
      (action request : Text) (c : TcpSoapClient P) (pool : P) (written : Bytes)
      → get_connection c.connection_pool ≡ (
        ok (
          record { inbound = answer version reason name code hs body; failure = none },
          record { written = written; fault = none },
        ),
        pool,
      )
      → length hs + 1 < fuel
      → send_action get_connection fuel action request c ≡ (
        ok (record { status_code = code; body = body }),
        record { statistics = increment_request_count c.statistics; connection_pool = pool },
      )
  unfolding send_action request_over respond send_request write_all
  send_action-answer get_connection fuel action request c pool written e n =
      rw e (rw (read_response-answer version reason name code hs body a fuel n))
