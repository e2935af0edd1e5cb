-- ===== src/Soap.antt =====
-- src/soap_client/mod.rs and src/soap_client/xml.rs: requests, responses and their parts.
pub mod Headers
pub mod Response
use realflight_bridge.Base.{
  ℕ, ◌+◌, ◌^◌, ◌-◌, Bool, true, false, ◌&&◌, Option, none, some, List, [], ◌∷◌, ◌++◌, leb, ◌==◌,
  if◌then◌else◌,
}
use realflight_bridge.Outcome.{Result, ok, err, ◌>>=◌, ok_or, or_panic, map_err}
use realflight_bridge.Text.{Text, codes, str_len}
use realflight_bridge.Text.Number.{show_nat, parse_uint, int_message}
use realflight_bridge.Text.Search.{slice}
use realflight_bridge.Text.Split.{split_whitespace, trim, eq_ignore_ascii_case}
use realflight_bridge.Text.Utf8.{Bytes, from_utf8_lossy}
use realflight_bridge.Types.{BridgeError}
use realflight_bridge.Decoder.Extract.{extract_element}

pub record SoapResponse : Type 0 where
  pub status_code : ℕ
  pub body : Text

unfoldable pub encode_envelope : Text → Text → Text
encode_envelope action body =
    codes "<?xml version='1.0' encoding='UTF-8'?>"
    ++ (codes
          "<soap:Envelope xmlns:soap='http://schemas.xmlsoap.org/soap/envelope/' xmlns:xsd='http://www.w3.org/2001/XMLSchema' xmlns:xsi='http://www.w3.org/2001/XMLSchema-instance'>"
        ++ (codes "<soap:Body>"
            ++ ((codes "<"
                  ++ (action ++ (codes ">" ++ (body ++ (codes "</" ++ (action ++ codes ">"))))))
                ++ (codes "</soap:Body>" ++ codes "</soap:Envelope>"))))

abbrev pub crlf : Text
crlf = b'\r' ∷ b'\n' ∷ []

unfoldable pub build_http_request : Text → Text → Text
build_http_request action envelope =
    codes "POST / HTTP/1.1\r\n"
    ++ ((codes "Soapaction: '" ++ (action ++ codes "'\r\n"))
        ++ ((codes "Content-Length: " ++ (show_nat (str_len envelope) ++ crlf))
            ++ (codes "Content-Type: text/xml;charset=utf-8\r\n" ++ (crlf ++ envelope))))

-- `Iterator::nth(1)`.
abbrev pub second : List Text → Option Text
second [] = none
second (_ ∷ []) = none
second (_ ∷ s ∷ _) = some s

abbrev pub u32_max : ℕ
u32_max = 2 ^ 32 - 1

abbrev pub usize_max : ℕ
usize_max = 2 ^ 64 - 1

abbrev is_empty : Text → Bool
is_empty [] = true
is_empty (_ ∷ _) = false

unfoldable pub parse_status_line : Text → Result BridgeError ℕ
parse_status_line status_line =
    if is_empty status_line
    then err (BridgeError.soap_fault (codes "Empty response from simulator"))
    else (do
      code ←
          ok_or (second (split_whitespace status_line))
            (BridgeError.soap_fault (codes "Malformed HTTP status line: missing status code"))
      map_err (λ e. BridgeError.soap_fault (codes "Invalid HTTP status code: " ++ int_message e))
          (parse_uint u32_max code))

abbrev to_option : {E A : Type 0} → Result E A → Option A
to_option (ok a) = some a
to_option _ = none

abbrev pub content_length_prefix : Text
content_length_prefix = codes "content-length:"

-- `split_whitespace().nth(1).and_then(|s| s.trim().parse().ok())`.
unfoldable pub length_value : Option Text → Option ℕ
length_value none = none
length_value (some s) = to_option (parse_uint usize_max (trim s))

-- The slice of the line panics if its end lies inside a character.
unfoldable pub parse_content_length : Text → Result BridgeError (Option ℕ)
unfolding length_value
parse_content_length line =
    if leb (str_len content_length_prefix) (str_len line)
    then (do
      front ← or_panic (slice line 0 (str_len content_length_prefix))
      ok (
          if eq_ignore_ascii_case front content_length_prefix
          then length_value (second (split_whitespace line))
          else none))
    else ok none

unfoldable pub create_response : ℕ → Bytes → SoapResponse
create_response status_code body = record { status_code = status_code; body = from_utf8_lossy body }

abbrev or_default : Option Text → Text
or_default (some message) = message
or_default none = codes "Failed to extract error message"

unfoldable pub fault_message : SoapResponse → Result BridgeError Text
fault_message r = do found ← extract_element (codes "detail") r.body; ok (or_default found)

-- `From<SoapResponse> for Result<(), BridgeError>`.
unfoldable pub into_result : SoapResponse → Result BridgeError (Unit {0})
unfolding fault_message
into_result r =
    if r.status_code == 200
    then ok tt
    else (do message ← fault_message r; err (BridgeError.soap_fault message))
