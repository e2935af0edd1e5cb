-- ===== src/Bridge/Remote/Shared/Order.antt =====
-- Who gets which response: the responses go to the tasks in the order in which these read.
use realflight_bridge.Base.{
  ℕ, ◌≤◌, ◌<◌, ◌^◌, ◌≡◌, sym, ap, ◌∙◌, inl, inr, true, false, none, some, List, [], ◌∷◌, ◌++◌,
  length, append_assoc, append-nil, arith, Bool-cases,
}
use realflight_bridge.Outcome.{Result, ok}
use realflight_bridge.Text.Utf8.{Bytes}
use realflight_bridge.Types.{BridgeError}
use realflight_bridge.Bridge.Wire.{Request, Response, Codec}
use realflight_bridge.Bridge.Wire.Frames.{frame, read_frame-frame, write_frame-frame}
use realflight_bridge.Bridge.Remote.{WireErrors, write_request, parse_response}
use realflight_bridge.Bridge.Remote.Shared.{
  Shared, Turn, writes, reads, contains, without, turn, then_run, run,
}

-- The frames of the responses that come, and the bytes of requests.
abbrev pub frames_of : List (Bytes × Response) → Bytes
frames_of [] = []
frames_of ((bytes, r) ∷ rs) = frame bytes ++ frames_of rs

abbrev pub AreReplies : Codec → List (Bytes × Response) → Type 0
AreReplies codec [] = Unit
AreReplies codec ((bytes, r) ∷ rs) =
    (codec.response_from_bytes bytes ≡ inr r) × (length bytes < 2 ^ 32) × AreReplies codec rs

-- The tasks that read, in their order.
abbrev pub readers : List Turn → List ℕ
readers [] = []
readers (writes i request ∷ ts) = readers ts
readers (reads i ∷ ts) = i ∷ readers ts

-- To each reader its response.
abbrev pub handed_out : List ℕ → List (Bytes × Response) → List (ℕ × Result BridgeError Response)
handed_out [] rs = []
handed_out (i ∷ is) [] = []
handed_out (i ∷ is) ((bytes, r) ∷ rs) = (i, ok r) ∷ handed_out is rs

-- A bridge whose connection takes all that is written, and gets `inbound`.
abbrev pub shared : Bytes → Bytes → List ℕ → List (ℕ × Result BridgeError Response) → Shared
shared inbound written waiting results = record {
  connection = record {
    reader = record { inbound = inbound; failure = none };
    writer = record { written = written; fault = none };
  };
  waiting = waiting;
  results = results;
}

module _ (errors : WireErrors) (codec : Codec) where
  pub turn-writes :
      (i : ℕ) (q : Request) (bytes inbound written : Bytes) (waiting : List ℕ)
      (results : List (ℕ × Result BridgeError Response))
      → codec.request_to_stdvec q ≡ inr bytes
      → contains waiting i ≡ false
      → turn errors codec (writes i q) (shared inbound written waiting results)
        ≡ some (shared inbound (written ++ frame bytes) (i ∷ waiting) results)
  unfolding turn write_request
  turn-writes i q bytes inbound written waiting results e n =
      rw n (rw e (rw (write_frame-frame bytes written)))

  pub turn-reads :
      (i : ℕ) (bytes rest written : Bytes) (r : Response) (waiting : List ℕ)
      (results : List (ℕ × Result BridgeError Response))
      → codec.response_from_bytes bytes ≡ inr r
      → length bytes < 2 ^ 32
      → contains waiting i ≡ true
      → turn errors codec (reads i) (shared (frame bytes ++ rest) written waiting results)
        ≡ some (shared rest written (without waiting i) (results ++ (i, ok r) ∷ []))
  unfolding turn parse_response
  turn-reads i bytes rest written r waiting results e l n =
      rw n (rw (read_frame-frame bytes rest none l) (rw e))

  writes_refused :
      (i : ℕ) (q : Request) (s : Shared)
      → contains s.waiting i ≡ true
      → turn errors codec (writes i q) s ≡ none
  unfolding turn
  writes_refused i q s n = rw n

  reads_refused :
      (i : ℕ) (s : Shared) → contains s.waiting i ≡ false → turn errors codec (reads i) s ≡ none
  unfolding turn
  reads_refused i s n = rw n

  -- In every schedule of the tasks the responses are handed out in the order in which they come, to
  -- the tasks in the order in which these read, whatever these have asked: where every request is
  -- serialised, and the connection takes what is written and has a response for each read.
  pub results_follow_reads :
      (ts : List Turn) (replies : List (Bytes × Response)) (written : Bytes) (waiting : List ℕ)
      (results : List (ℕ × Result BridgeError Response)) (s : Shared)
      → ((q : Request) → (bytes : Bytes) × (codec.request_to_stdvec q ≡ inr bytes))
      → AreReplies codec replies
      → length (readers ts) ≤ length replies
      → run errors codec ts (shared (frames_of replies) written waiting results) ≡ some s
      → s.results ≡ results ++ handed_out (readers ts) replies
  unfolding run then_run
  results_follow_reads [] replies written waiting results s w a l e =
      let same : shared (frames_of replies) written waiting results ≡ s = cc in
      ap (λ (t : Shared). t.results) (sym same) ∙ sym (append-nil results)
  results_follow_reads (writes i q ∷ ts) replies written waiting results s w a l e =
      elim (Bool-cases (contains waiting i)) [
        | inl busy ↦
            let stuck : none ≡ some s =
              rw (writes_refused i q (shared (frames_of replies) written waiting results) busy) at
                e in
            cc
        | inr free ↦
            let (bytes, sent) = w q in
            results_follow_reads ts replies (written ++ frame bytes) (i ∷ waiting) results s w a l (
              rw (turn-writes i q bytes (frames_of replies) written waiting results sent free) at e)
      ]
  results_follow_reads (reads i ∷ ts) [] written waiting results s w a l e = absurd (omega arith)
  results_follow_reads (reads i ∷ ts) ((bytes, r) ∷ rs) written waiting results s w (d, n, a) l e =
      elim (Bool-cases (contains waiting i)) [
        | inl mine ↦
            results_follow_reads ts rs written (without waiting i) (results ++ (i, ok r) ∷ []) s w a
              (omega arith)
              (rw (turn-reads i bytes (frames_of rs) written r waiting results d n mine) at e)
            ∙ append_assoc results ((i, ok r) ∷ []) (handed_out (readers ts) rs)
        | inr other ↦
            let stuck : none ≡ some s =
              rw
                (reads_refused i (shared (frame bytes ++ frames_of rs) written waiting results)
                  other)
                at e in
            cc
      ]
