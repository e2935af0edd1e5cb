-- ===== src/Net/Lines.antt =====
-- Reading what was sent: a line, and a block of known length.
use realflight_bridge.Base.{
  ℕ, ◌≡◌, refl, ap, ◌∙◌, true, false, Option, [], ◌∷◌, ◌++◌, leb, le→leb, ◌==◌, length,
  length-append, take-append, drop-append, arith, append_assoc,
}
use realflight_bridge.Outcome.{ok}
use realflight_bridge.Text.{Text, lacks}
use realflight_bridge.Text.Utf8.{
  Bytes, IsText, utf8, utf8-append, from_utf8-utf8, encode_char, is_scalar,
}
use realflight_bridge.Types.{IoError}
use realflight_bridge.Net.{cut_line, read_line, read_exact}

-- A line feed comes only from a line feed.
encode_char-lacks : (c : ℕ) → (c == b'\n') ≡ false → lacks b'\n' (encode_char c) ≡ true
unfolding encode_char
encode_char-lacks c h = ground arith

lacks-append_bytes :
    (s t : Bytes) → lacks b'\n' s ≡ true → lacks b'\n' t ≡ true → lacks b'\n' (s ++ t) ≡ true
lacks-append_bytes [] t h k = k
lacks-append_bytes (x ∷ s) t h k = ground (arith, lacks-append_bytes s t)

pub utf8-lacks : (s : Text) → lacks b'\n' s ≡ true → lacks b'\n' (utf8 s) ≡ true
unfolding utf8
utf8-lacks [] h = refl
utf8-lacks (c ∷ s) h =
    lacks-append_bytes (encode_char c) (utf8 s) (encode_char-lacks c (ground arith))
      (utf8-lacks s (ground arith))

cut_line-append :
    (line rest : Bytes)
    → lacks b'\n' line ≡ true
    → cut_line (line ++ (b'\n' ∷ rest)) ≡ (line ++ b'\n' ∷ [], rest, true)
unfolding cut_line
cut_line-append [] rest h = refl
cut_line-append (b ∷ line) rest h =
    let e : (b == b'\n') ≡ false = ground arith in rw (e, cut_line-append line rest (ground arith))

pub IsText-append : (s t : Text) → IsText s → IsText t → IsText (s ++ t)
IsText-append [] t h k = k
IsText-append (c ∷ s) t h k = ground (arith, IsText-append s t)

utf8_feed : (line : Text) → utf8 (line ++ b'\n' ∷ []) ≡ utf8 line ++ b'\n' ∷ []
utf8_feed line = utf8-append line (b'\n' ∷ []) ∙ ap (◌++◌ (utf8 line)) feed
  where
    feed : utf8 (b'\n' ∷ []) ≡ b'\n' ∷ []
    feed = unfold utf8 encode_char in refl

utf8_line :
    (line : Text) (rest : Bytes) → utf8 (line ++ b'\n' ∷ []) ++ rest ≡ utf8 line ++ (b'\n' ∷ rest)
utf8_line line rest =
    ap (λ bs. bs ++ rest) (utf8_feed line) ∙ append_assoc (utf8 line) (b'\n' ∷ []) rest

feed-IsText : IsText (b'\n' ∷ [])
unfolding is_scalar
feed-IsText = refl

-- A line of text, sent with its line feed, is read as it was written.
pub read_line-utf8 :
    (line : Text) (rest : Bytes) (failure : Option IoError)
    → IsText line
    → lacks b'\n' line ≡ true
    → read_line (record { inbound = utf8 (line ++ b'\n' ∷ []) ++ rest; failure = failure })
      ≡ ok (line ++ b'\n' ∷ [], record { inbound = rest; failure = failure })
unfolding read_line
read_line-utf8 line rest failure v h = rw (utf8_line line rest) (
    rw (cut_line-append (utf8 line) rest (utf8-lacks line h)) (
      rw (← utf8_feed line)
        (rw (from_utf8-utf8 (line ++ b'\n' ∷ []) (IsText-append line _ v feed-IsText)))))

-- A block of the length that was sent.
pub read_exact-append :
    (block rest : Bytes) (failure : Option IoError)
    → read_exact (length block) (record { inbound = block ++ rest; failure = failure })
      ≡ ok (block, record { inbound = rest; failure = failure })
unfolding read_exact
read_exact-append block rest failure =
    let e : leb (length block) (length (block ++ rest)) ≡ true =
      le→leb _ _ (omega (arith, length-append block rest)) in
    rw (e, take-append block rest, drop-append block rest)
