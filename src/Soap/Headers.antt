-- ===== src/Soap/Headers.antt =====
-- The status line and the Content-Length header, as a server writes them and as the client reads them.
use realflight_bridge.Base.{
  ℕ, ◌+◌, ◌≤◌, ◌<◌, ◌≡◌, refl, ap, true, not, some, [], ◌∷◌, ◌++◌, le→leb, all, arith,
}
use realflight_bridge.Outcome.{ok, panic}
use realflight_bridge.Text.{Text, str_len, str_len-append, char_len, split_at_inside}
use realflight_bridge.Text.Number.{show_nat, is_digit, show_nat-IsNumeral, parse_uint-show_nat}
use realflight_bridge.Text.Search.{slice-middle, slice-none}
use realflight_bridge.Text.Split.{
  is_whitespace, split_whitespace, split_whitespace-word, IsWord, trim-all, eq_ignore_ascii_case,
}
use realflight_bridge.Soap.{
  parse_status_line, parse_content_length, content_length_prefix, length_value, second, u32_max,
  usize_max, crlf,
}

digit_black : (c : ℕ) → is_digit c ≡ true → not (is_whitespace c) ≡ true
unfolding is_whitespace
digit_black c h = ground arith

digits_black : (s : Text) → all is_digit s ≡ true → all (λ x. not (is_whitespace x)) s ≡ true
digits_black [] h = refl
digits_black (c ∷ s) h = ground (arith, digit_black c, digits_black s)

IsWord-digits : (s : Text) → (n : ℕ) → s ≡ show_nat n → IsWord s
IsWord-digits [] n e = cc (rw (← e) at (show_nat-IsNumeral n).1)
IsWord-digits (c ∷ s) n e = digits_black (c ∷ s) (rw (← e) at (show_nat-IsNumeral n).0)

pub IsWord-show_nat : (n : ℕ) → IsWord (show_nat n)
IsWord-show_nat n = IsWord-digits (show_nat n) n refl

-- A status line with a code in decimal gives the code, whatever the reason behind it.
pub parse_status_line-show_nat :
    (version reason : Text) (code : ℕ)
    → IsWord version
    → code ≤ u32_max
    → parse_status_line (version ++ (b' ' ∷ (show_nat code ++ (b' ' ∷ reason)))) ≡ ok code
unfolding parse_status_line
parse_status_line-show_nat [] reason code w h = absurd w
parse_status_line-show_nat (c ∷ version) reason code w h =
    rw (split_whitespace-word (c ∷ version) b' ' (show_nat code ++ (b' ' ∷ reason)) w blank) (
      rw (split_whitespace-word (show_nat code) b' ' reason (IsWord-show_nat code) blank)
        (rw (parse_uint-show_nat u32_max code h)))
  where
    blank : is_whitespace b' ' ≡ true
    blank = unfold is_whitespace in refl

pub length_value-show_nat : (n : ℕ) → n ≤ usize_max → length_value (some (show_nat n)) ≡ some n
unfolding length_value
length_value-show_nat n h =
    rw (trim-all (show_nat n) (digits_black _ (show_nat-IsNumeral n).0))
      (rw (parse_uint-show_nat usize_max n h))

pub prefix_len : str_len content_length_prefix ≡ 15
unfolding str_len char_len
prefix_len = refl

pub no_len : str_len [] ≡ 0
unfolding str_len
no_len = refl

str_len_cons : (c : ℕ) (s : Text) → str_len (c ∷ s) ≡ char_len c + str_len s
unfolding str_len
str_len_cons c s = refl

pub words :
    (name : Text) (n : ℕ)
    → IsWord name
    → second (split_whitespace (name ++ (b' ' ∷ (show_nat n ++ crlf)))) ≡ some (show_nat n)
words name n w =
    rw (split_whitespace-word name b' ' (show_nat n ++ crlf) w (unfold is_whitespace in refl)) (
      rw (
        split_whitespace-word (show_nat n) b'\r' (b'\n' ∷ []) (IsWord-show_nat n)
          (unfold is_whitespace in refl)))

-- A header line gives its length: the name in upper or lower case, one blank, the length in decimal.
pub parse_content_length-show_nat :
    (name : Text) (n : ℕ)
    → IsWord name
    → eq_ignore_ascii_case name content_length_prefix ≡ true
    → str_len name ≡ 15
    → n ≤ usize_max
    → parse_content_length (name ++ (b' ' ∷ (show_nat n ++ crlf))) ≡ ok (some n)
unfolding parse_content_length
parse_content_length-show_nat name n w c e h = rw prefix_len (
    rw
      (le→leb 15 (str_len (name ++ (b' ' ∷ (show_nat n ++ crlf))))
        (omega (arith, str_len-append name (b' ' ∷ (show_nat n ++ crlf)))))
      (rw (slice-middle [] name (b' ' ∷ (show_nat n ++ crlf)) 0 15 no_len e)
        (rw c (ap ok (rw (words name n w) (length_value-show_nat n h))))))

-- A header line that has a character across its fifteenth byte panics, whatever the header.
pub parse_content_length-panics :
    (front : Text) (c : ℕ) (rest : Text)
    → str_len front < 15
    → 15 < str_len front + char_len c
    → parse_content_length (front ++ c ∷ rest) ≡ panic
unfolding parse_content_length
parse_content_length-panics front c rest l u = rw prefix_len (
    rw
      (le→leb 15 (str_len (front ++ c ∷ rest))
        (omega (arith, str_len-append front (c ∷ rest), str_len_cons c rest)))
      (rw (slice-none (front ++ c ∷ rest) 15 (split_at_inside front c rest 15 l u))))
