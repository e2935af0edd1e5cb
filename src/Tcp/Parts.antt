-- ===== src/Tcp/Parts.antt =====
-- A response by its parts: what the client makes of the status line, of all header lines together, and
-- of the bytes behind them.
use realflight_bridge.Base.{
  ℕ, ◌<◌, ◌≡◌, refl, sym, ap, ◌∙◌, true, Option, none, some, List, [], ◌∷◌, ◌++◌, length, all, leb,
  take, if◌then◌else◌, Bool-cases, inl, inr,
}
use realflight_bridge.Outcome.{Result, ok, err, ◌>>=◌, map_err, ok_or, >>=_congr, >>=_assoc}
use realflight_bridge.Text.{Text, codes, lacks}
use realflight_bridge.Text.Utf8.{Bytes, is_scalar, from_utf8_lossy}
use realflight_bridge.Types.{BridgeError}
use realflight_bridge.Net.{read_exact, end_of_file}
use realflight_bridge.Soap.{
  SoapResponse, crlf, parse_status_line, parse_content_length, create_response,
}
use realflight_bridge.Tcp.{or_else, read_response}
use realflight_bridge.Tcp.Response.{
  is_header, announced, response, understood, read_response-response,
}

-- What each header line says of the length.
unfoldable pub lengths : List Text → Result BridgeError (List (Option ℕ))
lengths [] = ok []
lengths (h ∷ hs) = do found ← parse_content_length (h ++ crlf); more ← lengths hs; ok (found ∷ more)

abbrev later : Option ℕ → Option ℕ → Option ℕ
later found (some n) = some n
later found none = found

-- The last of the lengths that were said.
abbrev pub last_length : List (Option ℕ) → Option ℕ
last_length [] = none
last_length (found ∷ more) = later found (last_length more)

-- As many bytes of the body as the length says.
unfoldable pub with_length : ℕ → Option ℕ → Bytes → Result BridgeError SoapResponse
with_length code none body = err (BridgeError.soap_fault (codes "Missing Content-Length header"))
with_length code (some n) body =
    if leb n (length body)
    then ok (record { status_code = code; body = from_utf8_lossy (take n body) })
    else err (BridgeError.connection end_of_file)

abbrev pub by_parts : Text → List Text → Bytes → Result BridgeError SoapResponse
by_parts status hs body = do
  code ← parse_status_line (status ++ crlf)
  said ← lengths hs
  with_length code (last_length said) body

later-or_else :
    (found cl last : Option ℕ) → later (or_else found cl) last ≡ later cl (later found last)
later-or_else found cl (some n) = refl
later-or_else none cl none = refl
later-or_else (some n) cl none = refl

announced-lengths :
    (hs : List Text) (cl : Option ℕ)
    → announced hs cl ≡ (do said ← lengths hs; ok (later cl (last_length said)))
unfolding announced lengths
announced-lengths [] cl = refl
announced-lengths (h ∷ hs) cl =
    >>=_congr (parse_content_length (h ++ crlf)) _ _ (λ found.
      announced-lengths hs (or_else found cl)
      ∙ >>=_congr (lengths hs) _ _ (λ said. ap ok (later-or_else found cl (last_length said)))
      ∙ sym (>>=_assoc (lengths hs) _ _))
    ∙ sym (>>=_assoc (parse_content_length (h ++ crlf)) _ _)

later-none : (o : Option ℕ) → later none o ≡ o
later-none none = refl
later-none (some n) = refl

body-with_length :
    (code : ℕ) (o : Option ℕ) (body : Bytes)
    → (do
      size ← ok_or o (BridgeError.soap_fault (codes "Missing Content-Length header"))
      (block, _) ←
          map_err BridgeError.connection
            (read_exact size (record { inbound = body; failure = none }))
      ok (create_response code block))
      ≡ with_length code o body
unfolding with_length read_exact create_response
body-with_length code none body = refl
body-with_length code (some n) body = elim (Bool-cases (leb n (length body))) [
  | inl enough ↦ rw enough refl
  | inr short ↦ rw short refl
]

understood-by_parts :
    (status : Text) (hs : List Text) (body : Bytes)
    → understood status hs body ≡ by_parts status hs body
understood-by_parts status hs body = >>=_congr (parse_status_line (status ++ crlf)) _ _ (λ code.
    ap
      (λ r. r >>= (λ found. (do
        size ← ok_or found (BridgeError.soap_fault (codes "Missing Content-Length header"))
        (block, _) ←
            map_err BridgeError.connection
              (read_exact size (record { inbound = body; failure = none }))
        ok (create_response code block))))
      (announced-lengths hs none)
    ∙ >>=_assoc (lengths hs) _ _
    ∙ >>=_congr (lengths hs) _ _ (λ said.
      rw (later-none (last_length said)) (body-with_length code (last_length said) body)))

-- A response that is sent whole is read by its parts: the code of its status line, the last length
-- that a header line says, and as many bytes of what follows as that length, of which there must be
-- enough; the first part that is wrong gives the error. One round of fuel for each header line and one
-- for the empty line are enough.
pub read_response-by_parts :
    (status : Text) (hs : List Text) (body : Bytes) (fuel : ℕ)
    → all is_scalar status ≡ true
    → lacks b'\n' status ≡ true
    → all is_header hs ≡ true
    → length hs < fuel
    → read_response fuel (record { inbound = response status hs body; failure = none })
      ≡ by_parts status hs body
read_response-by_parts status hs body fuel v l i n =
    read_response-response status hs body fuel v l i n ∙ understood-by_parts status hs body
