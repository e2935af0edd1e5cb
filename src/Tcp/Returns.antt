-- ===== src/Tcp/Returns.antt =====
-- A response ends where the connection fails: only a stream that is closed cleanly is read for ever.
use realflight_bridge.Base.{◌<◌, ◌≡◌, Bool, true, false, some, length}
use realflight_bridge.Outcome.{Result, ok, err, panic, spin}
use realflight_bridge.Outcome.Ends.{Ends}
use realflight_bridge.Text.{Text}
use realflight_bridge.Text.Ascii.{is_ascii}
use realflight_bridge.Text.Utf8.{Bytes}
use realflight_bridge.Types.{IoError}
use realflight_bridge.Net.{Reader}

-- A line that was found takes at least its line feed.
abbrev Shorter : Bytes → Bytes × Bytes × Bool → Type 0
Shorter bs (line, rest, true) = length rest < length bs
Shorter bs (line, rest, false) = Unit

module _ (failure : IoError) where
  -- A line that is read, and what is left: shorter, and ASCII where all of it is.
  abbrev Less : Bytes → Result IoError (Text × Reader) → Type 0
  Less bs (ok (text, r)) =
      (length r.inbound < length bs)
      × (is_ascii bs ≡ true → (is_ascii text ≡ true) × (is_ascii r.inbound ≡ true))
      × (r.failure ≡ some failure)
  Less bs (err e) = Unit
  Less bs panic = ⊥
  Less bs spin = ⊥

module _ (failure : IoError) where
  abbrev stream : Bytes → Reader
  stream bs = record { inbound = bs; failure = some failure }
