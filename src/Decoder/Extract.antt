-- ===== src/Decoder/Extract.antt =====
-- src/decoders/mod.rs: `extract_element`.
use realflight_bridge.Base.{
  ℕ, ◌+◌, ◌≤◌, ◌<◌, ◌≡◌, refl, sym, ap, ◌∙◌, inl, inr, true, false, Option, none, some, ◌++◌, arith,
  leb, if◌then◌else◌, Bool-cases, append_assoc,
}
use realflight_bridge.Outcome.{Result, ok, err, panic, spin, ◌>>=◌, or_panic}
use realflight_bridge.Text.{Text, codes, str_len, str_len-append}
use realflight_bridge.Text.Search.{
  find, slice, Occurs, find-Occurs, find-first, absent, cut-shorter, slice-middle,
}
use realflight_bridge.Types.{BridgeError}

-- `format!("<{}>", name)` and `format!("</{}>", name)`.
abbrev pub start_tag : Text → Text
start_tag name = codes "<" ++ (name ++ codes ">")

abbrev pub end_tag : Text → Text
end_tag name = codes "</" ++ (name ++ codes ">")

-- From the offsets at which the tags were found.
unfoldable pub extract_at :
    (start : Text) (xml : Text) → Option ℕ → Option ℕ → Result BridgeError (Option Text)
extract_at start xml none _ = ok none
extract_at start xml (some _) none = ok none
extract_at start xml (some start_pos) (some end_pos) =
    let detail_start = start_pos + str_len start in
    if leb end_pos detail_start
    then ok none
    else (do detail ← or_panic (slice xml detail_start end_pos); ok (some detail))

unfoldable pub extract_element : Text → Text → Result BridgeError (Option Text)
unfolding extract_at
extract_element name xml =
    extract_at (start_tag name) xml (find xml (start_tag name)) (find xml (end_tag name))

-- No panic; and what is extracted is not empty and stands between the two tags.
abbrev pub Extracted : Text → Text → Result BridgeError (Option Text) → Type 0
Extracted name xml (ok none) = Unit
Extracted name xml (ok (some detail)) =
    (before : Text) × (after : Text) × (xml
      ≡ before ++ (start_tag name ++ (detail ++ (end_tag name ++ after))))
    × (1 ≤ str_len detail)
Extracted name xml (err e) = ⊥
Extracted name xml panic = ⊥
Extracted name xml spin = ⊥

-- `detail` stands behind `start` and in front of `stop`, and is what the slice gives.
abbrev Between : (start stop xml : Text) → ℕ → ℕ → Text → Type 0
Between start stop xml i j detail =
    (slice xml (i + str_len start) j ≡ some detail)
    × ((before : Text) × (after : Text) × (xml ≡ before ++ (start ++ (detail ++ (stop ++ after))))
        × (1 ≤ str_len detail))

module _ (start stop xml p p' q' : Text) (i j : ℕ) where
  Between-cut :
      (detail : Text)
      → str_len p ≡ i
      → xml ≡ p' ++ (stop ++ q')
      → str_len p' ≡ j
      → i + str_len start < j
      → p' ≡ (p ++ start) ++ detail
      → Between start stop xml i j detail
  Between-cut detail n e n' l cut =
      let len = str_len-append p start in
      let len' = str_len-append (p ++ start) detail in
      let whole =
        e ∙ ap (λ t. t ++ (stop ++ q')) cut ∙ append_assoc (p ++ start) detail (stop ++ q') in
      (
        ap (λ t. slice t (i + str_len start) j) whole
            ∙ slice-middle (p ++ start) detail (stop ++ q') _ j (omega arith)
                (ap str_len (sym cut) ∙ n'),
        (
          p,
          q',
          whole ∙ append_assoc p start (detail ++ (stop ++ q')),
          omega (arith, ap str_len cut),
        ),
      )

-- The slice between two occurrences, the second of which starts behind the first.
between :
    (start stop xml : Text) (i j : ℕ)
    → Occurs xml start i
    → Occurs xml stop j
    → i + str_len start < j
    → (detail : Text) × Between start stop xml i j detail
between start stop xml i j (p, q, e, n) (p', q', e', n') l =
    let len = str_len-append p start in
    let (detail, cut, _) =
      cut-shorter (p ++ start) q p' (stop ++ q') (append_assoc p start q ∙ sym e ∙ e')
        (omega arith) in
    (detail, Between-cut start stop xml p p' q' i j detail n e' n' l cut)

extract_at-Extracted :
    (name xml : Text) (a b : Option ℕ)
    → ((i : ℕ) → a ≡ some i → Occurs xml (start_tag name) i)
    → ((j : ℕ) → b ≡ some j → Occurs xml (end_tag name) j)
    → Extracted name xml (extract_at (start_tag name) xml a b)
unfolding extract_at
extract_at-Extracted name xml none b f g = tt
extract_at-Extracted name xml (some i) none f g = tt
extract_at-Extracted name xml (some i) (some j) f g =
    elim (Bool-cases (leb j (i + str_len (start_tag name)))) [
      | inl late ↦ rw late tt
      | inr early ↦
          let (detail, found) =
            between (start_tag name) (end_tag name) xml i j (f i refl) (g j refl) (gt i j early) in
          rw early (rw found.0 found.1)
    ]
  where
    gt : (i j : ℕ) → leb j (i + str_len (start_tag name)) ≡ false → i + str_len (start_tag name) < j
    gt i j h = ground arith

-- Extraction never panics: the tags are found on character boundaries. Where it gives a text, the
-- text is not empty and stands in the document between the opening and the closing tag.
pub extract_element-Extracted : (name xml : Text) → Extracted name xml (extract_element name xml)
unfolding extract_element
extract_element-Extracted name xml =
    extract_at-Extracted name xml (find xml (start_tag name)) (find xml (end_tag name))
      (λ i. find-Occurs xml (start_tag name) i) (λ j. find-Occurs xml (end_tag name) j)

extract_at_first :
    (start stop p d q : Text)
    → 1 ≤ str_len d
    → extract_at start
        (p ++ (start ++ (d ++ (stop ++ q))))
        (some (str_len p))
        (some (str_len ((p ++ start) ++ d)))
      ≡ ok (some d)
unfolding extract_at
extract_at_first start stop p d q h =
    let len = str_len-append p start in
    let len' = str_len-append (p ++ start) d in
    let early : leb (str_len ((p ++ start) ++ d)) (str_len p + str_len start) ≡ false =
      ground (arith, len, len') in
    rw early (
      rw (
        ap (λ t. slice t (str_len p + str_len start) (str_len ((p ++ start) ++ d)))
          (sym (append_assoc p start (d ++ (stop ++ q))))
        ∙ slice-middle (p ++ start) d (stop ++ q) _ _ len refl))

-- The text between the first opening tag and the first closing tag is what is extracted, if it is
-- not empty and the closing tag does not occur before it ends.
pub extract_element_first :
    (name p d q : Text)
    → 1 ≤ str_len d
    → absent (start_tag name) p (start_tag name ++ (d ++ (end_tag name ++ q))) ≡ true
    → absent (end_tag name) ((p ++ start_tag name) ++ d) (end_tag name ++ q) ≡ true
    → extract_element name (p ++ (start_tag name ++ (d ++ (end_tag name ++ q)))) ≡ ok (some d)
unfolding extract_element
extract_element_first name p d q h a b =
    rw (find-first p (start_tag name) (d ++ (end_tag name ++ q)) a)
      (rw (stop_at) (extract_at_first (start_tag name) (end_tag name) p d q h))
  where
    stop_at :
        find (p ++ (start_tag name ++ (d ++ (end_tag name ++ q)))) (end_tag name)
        ≡ some (str_len ((p ++ start_tag name) ++ d))
    stop_at =
        ap (λ t. find t (end_tag name))
          (sym (append_assoc p (start_tag name) (d ++ (end_tag name ++ q)))
            ∙ sym (append_assoc (p ++ start_tag name) d (end_tag name ++ q)))
        ∙ find-first ((p ++ start_tag name) ++ d) (end_tag name) q b
