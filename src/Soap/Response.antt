-- ===== src/Soap/Response.antt =====
-- What a response becomes: success, or a fault with the server's message.
use realflight_bridge.Base.{
  ℕ, ◌≡◌, ◌≢◌, refl, ◌⊎◌, inl, inr, true, false, Option, none, some, ◌++◌, ◌≤◌, ◌==◌, arith,
  Bool-cases,
}
use realflight_bridge.Outcome.{Result, ok, err, panic, spin}
use realflight_bridge.Text.{Text, codes, str_len}
use realflight_bridge.Text.Search.{absent}
use realflight_bridge.Types.{BridgeError}
use realflight_bridge.Decoder.Extract.{
  extract_element, Extracted, extract_element-Extracted, extract_element_first, start_tag, end_tag,
}
use realflight_bridge.Soap.{SoapResponse, fault_message, into_result}

fault_of :
    (r : SoapResponse) (e : Result BridgeError (Option Text))
    → extract_element (codes "detail") r.body ≡ e
    → Extracted (codes "detail") r.body e
    → (message : Text) × (fault_message r ≡ ok message)
unfolding fault_message
fault_of r (ok none) e x = (codes "Failed to extract error message", rw e refl)
fault_of r (ok (some d)) e x = (d, rw e refl)
fault_of r (err _) e x = absurd x
fault_of r panic e x = absurd x
fault_of r spin e x = absurd x

-- A message is found in any body.
pub fault_message_total : (r : SoapResponse) → (message : Text) × (fault_message r ≡ ok message)
fault_message_total r =
    fault_of r (extract_element (codes "detail") r.body) refl
      (extract_element-Extracted (codes "detail") r.body)

-- Status 200 is a success and every other status is a SOAP fault, whatever the body; nothing panics.
pub into_result_total :
    (r : SoapResponse)
    → ((r.status_code ≡ 200) × (into_result r ≡ ok tt))
      ⊎ ((r.status_code ≢ 200)
          × ((message : Text) × (into_result r ≡ err (BridgeError.soap_fault message))))
unfolding into_result
into_result_total r = elim (Bool-cases (r.status_code == 200)) [
  | inl good ↦ inl (ground arith, rw good refl)
  | inr bad ↦
      let (message, e) = fault_message_total r in inr (ground arith, (message, rw (bad, e) refl))
]

-- The fault's message is the text of the first `detail` element, if that is not empty.
pub into_result_detail :
    (status : ℕ) (p d q : Text)
    → status ≢ 200
    → 1 ≤ str_len d
    → absent
        (start_tag (codes "detail"))
        p
        (start_tag (codes "detail") ++ (d ++ (end_tag (codes "detail") ++ q)))
      ≡ true
    → absent
        (end_tag (codes "detail"))
        ((p ++ start_tag (codes "detail")) ++ d)
        (end_tag (codes "detail") ++ q)
      ≡ true
    → into_result (record {
      status_code = status;
      body = p ++ (start_tag (codes "detail") ++ (d ++ (end_tag (codes "detail") ++ q)));
    })
      ≡ err (BridgeError.soap_fault d)
unfolding into_result fault_message
into_result_detail status p d q n h a b =
    let bad : (status == 200) ≡ false = ground arith in
    rw (bad, extract_element_first (codes "detail") p d q h a b)
