-- ===== src/Stub.antt =====
-- src/soap_client/stub_async.rs: the SOAP client that answers from a queue and records what it is asked.
pub mod Blocking
pub mod Server
use realflight_bridge.Base.{◌≡◌, refl, ap, ◌∙◌, List, [], ◌∷◌, ◌++◌, map, append_assoc, append-nil}
use realflight_bridge.Outcome.{Result, ok, err}
use realflight_bridge.Text.{Text, codes}
use realflight_bridge.Types.{BridgeError}
use realflight_bridge.Soap.{SoapResponse}
use realflight_bridge.Bridge.Local.{SoapClient}

pub record AsyncStubSoapClient : Type 0 where
  pub responses : List SoapResponse
  pub recorded : List Text

abbrev pub new : AsyncStubSoapClient
new = record { responses = []; recorded = [] }

abbrev pub requests : AsyncStubSoapClient → List Text
requests c = c.recorded

abbrev pub queue_response : SoapResponse → AsyncStubSoapClient → AsyncStubSoapClient
queue_response response c = record c { responses = c.responses ++ response ∷ [] }

abbrev pub no_more : BridgeError
no_more = BridgeError.soap_fault (codes "No more stubbed responses available")

-- `pop_front`.
unfoldable pub pop :
    List SoapResponse → AsyncStubSoapClient → Result BridgeError SoapResponse × AsyncStubSoapClient
pop [] c = (err no_more, c)
pop (r ∷ rs) c = (ok r, record c { responses = rs })

abbrev pub request : Text → Text → Text
request action body = action ++ (codes ":" ++ body)

unfoldable pub send_action :
    Text → Text → AsyncStubSoapClient → Result BridgeError SoapResponse × AsyncStubSoapClient
unfolding pop
send_action action body c =
    pop c.responses (record c { recorded = c.recorded ++ request action body ∷ [] })

-- `impl AsyncSoapClient for AsyncStubSoapClient`.
abbrev pub client : SoapClient AsyncStubSoapClient
client = record { send_action = send_action }

-- Calls one after the other, and responses that are queued one after the other.
abbrev pub send_all :
    List (Text × Text)
    → AsyncStubSoapClient
    → List (Result BridgeError SoapResponse) × AsyncStubSoapClient
send_all [] c = ([], c)
send_all ((action, body) ∷ calls) c =
    let (result, c') = send_action action body c in
    let (results, c'') = send_all calls c' in (result ∷ results, c'')

abbrev pub queue_all : List SoapResponse → AsyncStubSoapClient → AsyncStubSoapClient
queue_all [] c = c
queue_all (r ∷ rs) c = queue_all rs (queue_response r c)

-- To each call its response, and an error where there is none; and the responses that are left.
abbrev pub answered :
    List (Text × Text) → List SoapResponse → List (Result BridgeError SoapResponse)
answered [] rs = []
answered (call ∷ calls) [] = err no_more ∷ answered calls []
answered (call ∷ calls) (r ∷ rs) = ok r ∷ answered calls rs

abbrev pub left : List (Text × Text) → List SoapResponse → List SoapResponse
left [] rs = rs
left (call ∷ calls) [] = []
left (call ∷ calls) (r ∷ rs) = left calls rs

queue_all-responses :
    (rs queued : List SoapResponse) (texts : List Text)
    → queue_all rs (record { responses = queued; recorded = texts })
      ≡ record { responses = queued ++ rs; recorded = texts }
queue_all-responses [] queued texts = rw (append-nil queued)
queue_all-responses (r ∷ rs) queued texts =
    queue_all-responses rs (queued ++ r ∷ []) texts
    ∙ ap (λ q. record { responses = q; recorded = texts }) (append_assoc queued (r ∷ []) rs)

left_none : (calls : List (Text × Text)) → left calls [] ≡ []
left_none [] = refl
left_none (call ∷ calls) = refl

send_all-queue :
    (calls : List (Text × Text)) (queued : List SoapResponse) (texts : List Text)
    → send_all calls (record { responses = queued; recorded = texts }) ≡ (
      answered calls queued,
      record {
        responses = left calls queued;
        recorded = texts ++ map (λ call. request call.0 call.1) calls;
      },
    )
unfolding send_action
send_all-queue [] queued texts = rw (append-nil texts)
send_all-queue ((action, body) ∷ calls) [] texts =
    rw (send_all-queue calls [] (texts ++ request action body ∷ []))
      (rw (left_none calls, append_assoc texts (request action body ∷ [])))
send_all-queue ((action, body) ∷ calls) (r ∷ rs) texts =
    rw (send_all-queue calls rs (texts ++ request action body ∷ []))
      (rw (append_assoc texts (request action body ∷ [])))

-- The client answers calls with the queued responses in their order, one each, and with an error where
-- none is left; the calls are recorded in their order, answered or not.
pub send_all-queue_all :
    (calls : List (Text × Text)) (rs : List SoapResponse)
    → send_all calls (queue_all rs new) ≡ (
      answered calls rs,
      record { responses = left calls rs; recorded = map (λ call. request call.0 call.1) calls },
    )
send_all-queue_all calls rs =
    ap (send_all calls) (queue_all-responses rs [] []) ∙ send_all-queue calls rs []
