-- ===== src/Net.antt =====
-- TCP streams and their buffered halves, as the sources use them: `read_line`, `read_exact` and
-- `write_all` of std::io and of tokio. A stream is seen from the program: the bytes that the peer
-- sends, how they end, and the bytes that the program has sent. Waiting takes no time.
pub mod Lines
use realflight_bridge.Base.{
  ℕ, suc, ◌+◌, ◌≡◌, Bool, true, false, Option, none, some, List, [], ◌∷◌, ◌++◌, leb, ◌==◌,
  if◌then◌else◌, length, take, drop,
}
use realflight_bridge.Outcome.{Result, ok, err, ◌>>=◌, ok_or}
use realflight_bridge.Text.{Text, codes}
use realflight_bridge.Text.Utf8.{Bytes, from_utf8}
use realflight_bridge.Types.{IoError, unexpected_eof, invalid_data}

-- The reading half. Behind the last byte the peer has closed the stream, or reading fails.
pub record Reader : Type 0 where
  pub inbound : Bytes
  pub failure : Option IoError

-- The writing half, and the error of a write or flush, if it fails.
pub record Writer : Type 0 where
  pub written : Bytes
  pub fault : Option IoError

abbrev pub end_of_file : IoError
end_of_file = record { kind = unexpected_eof; message = codes "failed to fill whole buffer" }

abbrev pub not_utf8 : IoError
not_utf8 = record { kind = invalid_data; message = codes "stream did not contain valid UTF-8" }

-- The end of the stream, where an operation wants more bytes.
abbrev pub failed : {A : Type 0} → Option IoError → IoError → Result IoError A
failed none e = err e
failed (some e) _ = err e

-- The bytes up to the first line feed, it included, and the rest; the flag tells if there is one.
unfoldable pub cut_line : Bytes → Bytes × Bytes × Bool
cut_line [] = ([], [], false)
cut_line (b ∷ bs) =
    let (line, rest, found) = cut_line bs in
    if b == b'\n' then (b ∷ [], bs, true) else (b ∷ line, rest, found)

unfoldable pub finish_line : Bytes × Bytes × Bool → Option IoError → Result IoError (Text × Reader)
finish_line (line, rest, false) (some e) = err e
finish_line (line, rest, _) failure = do
  text ← ok_or (from_utf8 line) not_utf8
  ok (text, record { inbound = rest; failure = failure })

-- `BufRead::read_line` into an empty string: at the end of the stream the line is empty.
unfoldable pub read_line : Reader → Result IoError (Text × Reader)
unfolding finish_line cut_line
read_line r = finish_line (cut_line r.inbound) r.failure

unfoldable pub read_exact : ℕ → Reader → Result IoError (Bytes × Reader)
read_exact n r =
    if leb n (length r.inbound)
    then ok (take n r.inbound, record r { inbound = drop n r.inbound })
    else failed r.failure end_of_file

-- `write_all` and `flush`.
unfoldable pub write_all : Bytes → Writer → Result IoError Writer
write_all bs w = elim w.fault [
  | none ↦ ok (record w { written = w.written ++ bs })
  | some e ↦ err e
]
