-- ===== src/Bridge/Wire/Frames.antt =====
-- A frame that was written is read back, and the bytes behind it are left.
use realflight_bridge.Base.{
  ℕ, ◌%◌, ◌^◌, ◌<◌, ◌≡◌, refl, ap, ◌∙◌, Option, none, ◌++◌, length, arith, append_assoc,
}
use realflight_bridge.Outcome.{ok}
use realflight_bridge.Text.Utf8.{Bytes}
use realflight_bridge.Types.{IoError}
use realflight_bridge.Net.{read_exact, write_all}
use realflight_bridge.Net.Lines.{read_exact-append}
use realflight_bridge.Bridge.Wire.{to_be_bytes, from_be_bytes, write_frame, read_body, read_frame}

-- The bytes of a frame.
abbrev pub frame : Bytes → Bytes
frame bytes = to_be_bytes (length bytes % 2 ^ 32) ++ bytes

pub write_frame-frame :
    (bytes written : Bytes)
    → write_frame bytes (record { written = written; fault = none })
      ≡ ok (record { written = written ++ frame bytes; fault = none })
unfolding write_frame write_all
write_frame-frame bytes written =
    ap (λ bs. ok (record { written = bs; fault = none }))
      (append_assoc written (to_be_bytes (length bytes % 2 ^ 32)) bytes)

pub from_be_bytes-to_be_bytes : (n : ℕ) → n < 2 ^ 32 → from_be_bytes (to_be_bytes n) ≡ n
unfolding from_be_bytes to_be_bytes
from_be_bytes-to_be_bytes n h = omega arith

pub four : (n : ℕ) → length (to_be_bytes n) ≡ 4
unfolding to_be_bytes
four n = refl

pub size :
    (bytes : Bytes)
    → length bytes < 2 ^ 32
    → from_be_bytes (to_be_bytes (length bytes % 2 ^ 32)) ≡ length bytes
size bytes h = from_be_bytes-to_be_bytes (length bytes % 2 ^ 32) (omega arith) ∙ omega arith

-- The length of a frame is read off first.
pub read_length-frame :
    (bytes rest : Bytes) (failure : Option IoError)
    → read_exact 4 (record { inbound = frame bytes ++ rest; failure = failure })
      ≡ ok (
        to_be_bytes (length bytes % 2 ^ 32),
        record { inbound = bytes ++ rest; failure = failure },
      )
read_length-frame bytes rest failure =
    let n = length bytes % 2 ^ 32 in
    rw (append_assoc (to_be_bytes n) bytes rest)
      (rw (four n) at (read_exact-append (to_be_bytes n) (bytes ++ rest) failure))

pub read_frame-frame :
    (bytes rest : Bytes) (failure : Option IoError)
    → length bytes < 2 ^ 32
    → read_frame (record { inbound = frame bytes ++ rest; failure = failure })
      ≡ (ok bytes, record { inbound = rest; failure = failure })
unfolding read_frame read_body
read_frame-frame bytes rest failure h =
    rw (read_length-frame bytes rest failure)
      (rw (size bytes h) (rw (read_exact-append bytes rest failure)))
