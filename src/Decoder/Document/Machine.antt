-- ===== src/Decoder/Document/Machine.antt =====
-- The machine of `decode_simulator_state` on one tag or one stretch of character data.
use realflight_bridge.Base.{
  ℕ, ◌≡◌, refl, ◌∙◌, ◌⊎◌, true, false, [], ◌∷◌, ◌++◌, arith, ◌==◌, append_assoc, append-nil,
}
use realflight_bridge.Outcome.{◌>>=◌, >>=_assoc}
use realflight_bridge.Text.{Text, lacks}
use realflight_bridge.Types.{FloatText, SimulatorState}
use realflight_bridge.Decoder.{
  ParseState, find_tag, maybe_tag, content, open_tag, close_tag, Decoder, close, step_in, run,
}
use realflight_bridge.Decoder.Document.{is_tag}

abbrev pub at : ParseState → Text → Text → Text → ℕ × SimulatorState → Decoder
at state key tag text (i, s) = record {
  state = state;
  key = key;
  open_tag = tag;
  content = text;
  channel_ndx = i;
  result = s;
}

-- Between two tags the machine is looking for a tag or reads content.
abbrev pub Between : ParseState → Type 0
Between m = (m ≡ find_tag) ⊎ (m ≡ content)

module _ (ft : FloatText) (o c : Text) (r : ℕ × SimulatorState) where
  run-open_tag :
      (t k rest : Text)
      → lacks b'>' t ≡ true
      → run ft (at open_tag k o c r) (t ++ rest) ≡ run ft (at open_tag (k ++ t) o c r) rest
  unfolding run step_in
  run-open_tag [] k rest h = rw append-nil
  run-open_tag (x ∷ t) k rest h =
      let e : (x == b'>') ≡ false = ground arith in
      rw e (run-open_tag t (k ++ x ∷ []) rest (ground arith) ∙ rw append_assoc)

  run-close_tag :
      (t k rest : Text)
      → lacks b'>' t ≡ true
      → run ft (at close_tag k o c r) (t ++ rest) ≡ run ft (at close_tag (k ++ t) o c r) rest
  unfolding run step_in
  run-close_tag [] k rest h = rw append-nil
  run-close_tag (x ∷ t) k rest h =
      let e : (x == b'>') ≡ false = ground arith in
      rw e (run-close_tag t (k ++ x ∷ []) rest (ground arith) ∙ rw append_assoc)

pub run-find_tag :
    (ft : FloatText) (o c k : Text) (r : ℕ × SimulatorState) (t rest : Text)
    → lacks b'<' t ≡ true
    → run ft (at find_tag k o c r) (t ++ rest) ≡ run ft (at find_tag k o c r) rest
unfolding run step_in
run-find_tag ft o c k r [] rest h = refl
run-find_tag ft o c k r (x ∷ t) rest h =
    let e : (x == b'<') ≡ false = ground arith in
    rw e (run-find_tag ft o c k r t rest (ground arith))

pub run-content :
    (ft : FloatText) (o k : Text) (r : ℕ × SimulatorState) (t c rest : Text)
    → lacks b'<' t ≡ true
    → run ft (at content k o c r) (t ++ rest) ≡ run ft (at content k o (c ++ t) r) rest
unfolding run step_in
run-content ft o k r [] c rest h = rw append-nil
run-content ft o k r (x ∷ t) c rest h =
    let e : (x == b'<') ≡ false = ground arith in
    rw e (run-content ft o k r t (c ++ x ∷ []) rest (ground arith) ∙ rw append_assoc)

-- A stretch of character data is skipped, or collected: `skipped` is what the machine then holds.
abbrev pub skipped : ParseState → Text → Text → Text
skipped content c t = c ++ t
skipped _ c t = c

pub run_text :
    (ft : FloatText) (m : ParseState) (k o c : Text) (r : ℕ × SimulatorState) (t rest : Text)
    → Between m
    → lacks b'<' t ≡ true
    → run ft (at m k o c r) (t ++ rest) ≡ run ft (at m k o (skipped m c t) r) rest
run_text ft find_tag k o c r t rest b h = run-find_tag ft o c k r t rest h
run_text ft content k o c r t rest b h = run-content ft o k r t c rest h
run_text ft maybe_tag k o c r t rest b h = ground arith
run_text ft open_tag k o c r t rest b h = ground arith
run_text ft close_tag k o c r t rest b h = ground arith

-- From `<` to the `>` of an opening tag.
pub run-open :
    (ft : FloatText) (m : ParseState) (k o c : Text) (r : ℕ × SimulatorState) (tag rest : Text)
    → Between m
    → is_tag tag ≡ true
    → run ft (at m k o c r) (b'<' ∷ (tag ++ (b'>' ∷ rest))) ≡ run ft (at content [] tag [] r) rest
unfolding run step_in
run-open ft m k o c r [] rest b h = cc
run-open ft find_tag k o c r (x ∷ tag) rest b h =
    let e : (x == b'?') ≡ false = ground arith in
    let e' : (x == b'/') ≡ false = ground arith in
    rw (e, e') (run-open_tag ft o c r tag (x ∷ []) (b'>' ∷ rest) (ground arith))
run-open ft content k o c r (x ∷ tag) rest b h =
    let e : (x == b'?') ≡ false = ground arith in
    let e' : (x == b'/') ≡ false = ground arith in
    rw (e, e') (run-open_tag ft o c r tag (x ∷ []) (b'>' ∷ rest) (ground arith))
run-open ft maybe_tag k o c r (x ∷ tag) rest b h = ground arith
run-open ft open_tag k o c r (x ∷ tag) rest b h = ground arith
run-open ft close_tag k o c r (x ∷ tag) rest b h = ground arith

-- From `</` to the `>` of a closing tag.
pub run-close :
    (ft : FloatText) (m : ParseState) (k o c : Text) (r : ℕ × SimulatorState) (name rest : Text)
    → Between m
    → lacks b'>' name ≡ true
    → run ft (at m k o c r) (b'<' ∷ b'/' ∷ (name ++ (b'>' ∷ rest)))
      ≡ (do r' ← close ft (at close_tag name o c r); run ft (at find_tag [] o [] r') rest)
unfolding run step_in
run-close ft find_tag k o c r name rest b h =
    run-close_tag ft o c r name [] (b'>' ∷ rest) h
    ∙ >>=_assoc (close ft (at close_tag name o c r)) _ _
run-close ft content k o c r name rest b h =
    run-close_tag ft o c r name [] (b'>' ∷ rest) h
    ∙ >>=_assoc (close ft (at close_tag name o c r)) _ _
run-close ft maybe_tag k o c r name rest b h = ground arith
run-close ft open_tag k o c r name rest b h = ground arith
run-close ft close_tag k o c r name rest b h = ground arith
