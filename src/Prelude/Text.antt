-- ===== src/Prelude/Text.antt =====
-- Text as its bytes, which is how the program compares, cuts and parses it: UTF-8 validity, and
-- decimal numbers as `u64::from_str` reads and `to_string` writes them.
use Prim.Native.Char.{code}
use Prim.Native.String.{String}
use native.Mathlib.Nat.{pow-suc}
use mathlib.Core.List.{append-nil}
use solana_snapshot_etl.Prelude.Result.{word}
use solana_snapshot_etl.Prelude.{
  ℕ, zero, suc, ◌+◌, ◌-◌, ◌*◌, ◌/◌, ◌%◌, ◌^◌, ◌<◌, ◌≡◌, refl, ◌∙◌, Bool, true, false, ◌&&◌, List,
  [], ◌∷◌, ◌++◌, Option, none, some, ltb, leb, ◌==◌, if◌then◌else◌, arith, All, sym, Bool-cases,
  inl, inr, ltb→lt, ap, ◌≢◌,
}

abbrev pub Str : Type 0
Str = List ℕ

-- The bytes of an ASCII literal.
abbrev pub bytes : String → Str
bytes String.[] = []
bytes (String.◌∷◌ c s) = code c ∷ bytes s

abbrev pub in_range : ℕ → ℕ → ℕ → Bool
in_range lo hi b = leb lo b && leb b hi

-- After a first byte: how many bytes follow, and the range of the next one.
abbrev pub utf8_lead : ℕ → Option (ℕ × ℕ × ℕ)
utf8_lead b =
    if ltb b 0x80
    then some (0, 0, 0)
    else if in_range 0xc2 0xdf b
    then some (1, 0x80, 0xbf)
    else if b == 0xe0
    then some (2, 0xa0, 0xbf)
    else if b == 0xed
    then some (2, 0x80, 0x9f)
    else if in_range 0xe1 0xef b
    then some (2, 0x80, 0xbf)
    else if b == 0xf0
    then some (3, 0x90, 0xbf)
    else if in_range 0xf1 0xf3 b
    then some (3, 0x80, 0xbf)
    else if b == 0xf4
    then some (3, 0x80, 0x8f)
    else none

unfoldable pub utf8_from : ℕ → ℕ → ℕ → Str → Bool
utf8_from zero lo hi [] = true
utf8_from (suc n) lo hi [] = false
utf8_from zero lo hi (b ∷ bs) = elim (utf8_lead b) [
  | none ↦ false
  | some (n, lo', hi') ↦ utf8_from n lo' hi' bs
]
utf8_from (suc n) lo hi (b ∷ bs) = if in_range lo hi b then utf8_from n 0x80 0xbf bs else false

-- `str::from_utf8(bytes).is_ok()`
unfoldable pub is_utf8 : Str → Bool
unfolding utf8_from
is_utf8 = utf8_from 0 0 0

abbrev pub is_digit : ℕ → Bool
is_digit c = in_range 48 57 c

-- `checked_mul` and `checked_add`, digit by digit.
unfoldable pub parse_digits : ℕ → Str → Option ℕ
parse_digits acc [] = some acc
parse_digits acc (c ∷ cs) =
    let acc' = acc * 10 + (c - 48) in
    let rest = parse_digits acc' cs in
    if is_digit c then if ltb acc' word then rest else none else none

-- `u64::from_str`: an optional `+`, then one digit or more.
unfoldable pub parse_u64 : Str → Option ℕ
unfolding parse_digits
parse_u64 [] = none
parse_u64 (c ∷ []) = parse_digits 0 (c ∷ [])
parse_u64 (c ∷ d ∷ cs) = if c == b'+' then parse_digits 0 (d ∷ cs) else parse_digits 0 (c ∷ d ∷ cs)

unfoldable pub print_digits : ℕ → ℕ → Str → Str
print_digits zero n rest = rest
print_digits (suc f) n rest =
    let more = print_digits f (n / 10) ((48 + n % 10) ∷ rest) in
    if ltb n 10 then (48 + n) ∷ rest else more

-- `to_string` of a `u64`: twenty digits are enough.
unfoldable pub to_string : ℕ → Str
unfolding print_digits
to_string n = print_digits 20 n []

-- The part before the first `sep`, and the part after it if there is one: `splitn(2, sep)`.
abbrev pub split_once : ℕ → Str → Str × Option Str
split_once sep [] = ([], none)
split_once sep (c ∷ cs) =
    let rest = split_once sep cs in if c == sep then ([], some cs) else (c ∷ rest.0, rest.1)

-- One digit read.
parse_digits-cons :
    (acc d : ℕ) (cs : Str)
    → d < 10
    → acc * 10 + d < word
    → parse_digits acc ((48 + d) ∷ cs) ≡ parse_digits (acc * 10 + d) cs
unfolding parse_digits
parse_digits-cons acc d cs h w =
    let e : acc * 10 + (48 + d - 48) ≡ acc * 10 + d = omega arith in rw e (ground arith)

parse-print_digits :
    (f n : ℕ) (rest : Str)
    → n < 10 ^ f
    → n < word
    → parse_digits 0 (print_digits f n rest) ≡ parse_digits n rest
unfolding print_digits
parse-print_digits zero n rest h w = ap (λ k. parse_digits k rest) (omega arith)
parse-print_digits (suc f) n rest h w = elim (Bool-cases (ltb n 10)) [
  | inl small ↦ rw small (
      parse_digits-cons 0 n rest (ltb→lt n 10 small) (omega arith)
      ∙ ap (λ k. parse_digits k rest) (omega arith))
  | inr large ↦ rw large (
      parse-print_digits f (n / 10) ((48 + n % 10) ∷ rest) (omega (arith, pow-suc 10 f))
        (omega arith)
      ∙ parse_digits-cons (n / 10) (n % 10) rest (omega arith) (omega arith)
      ∙ ap (λ k. parse_digits k rest) (omega arith))
]

-- Every byte is a decimal digit.
abbrev pub IsDecimal : Str → Type 0
IsDecimal s = All (λ c. is_digit c ≡ true) s

print_digits-IsDecimal :
    (f n : ℕ) (rest : Str) → n < 10 ^ f → IsDecimal rest → IsDecimal (print_digits f n rest)
unfolding print_digits
print_digits-IsDecimal zero n rest h d = d
print_digits-IsDecimal (suc f) n rest h d =
    ground (arith, pow-suc 10 f, print_digits-IsDecimal f (n / 10) ((48 + n % 10) ∷ rest))

pub to_string-IsDecimal : (n : ℕ) → n < word → IsDecimal (to_string n)
unfolding to_string
to_string-IsDecimal n h = print_digits-IsDecimal 20 n [] (omega arith) tt

-- `u64::from_str` on digits alone.
pub parse_u64-IsDecimal : (s : Str) → s ≢ [] → IsDecimal s → parse_u64 s ≡ parse_digits 0 s
unfolding parse_u64
parse_u64-IsDecimal [] ne d = absurd (ne refl)
parse_u64-IsDecimal (c ∷ []) ne d = refl
parse_u64-IsDecimal (c ∷ e ∷ cs) ne d = ground (arith, d.0)

print_digits-ne-nil : (f n : ℕ) (rest : Str) → rest ≢ [] → print_digits f n rest ≢ []
unfolding print_digits
print_digits-ne-nil zero n rest h = h
print_digits-ne-nil (suc f) n rest h =
    ground (arith, print_digits-ne-nil f (n / 10) ((48 + n % 10) ∷ rest))

pub to_string-ne-nil : (n : ℕ) → to_string n ≢ []
unfolding to_string print_digits
to_string-ne-nil n = ground (arith, print_digits-ne-nil 19 (n / 10) ((48 + n % 10) ∷ []))

-- What `to_string` writes, `from_str` reads.
pub parse_u64-to_string : (n : ℕ) → n < word → parse_u64 (to_string n) ≡ some n
unfolding to_string parse_digits
parse_u64-to_string n h =
    parse_u64-IsDecimal (to_string n) (to_string-ne-nil n) (to_string-IsDecimal n h)
    ∙ parse-print_digits 20 n [] (omega arith) h

is_utf8-cons : (c : ℕ) (s : Str) → c < 128 → is_utf8 (c ∷ s) ≡ is_utf8 s
unfolding is_utf8
is_utf8-cons c s h = ground arith

-- Text of digits and full stops is UTF-8.
pub is_utf8-IsDecimal : (s t : Str) → IsDecimal s → is_utf8 (s ++ t) ≡ is_utf8 t
is_utf8-IsDecimal [] t d = refl
is_utf8-IsDecimal (c ∷ s) t d = is_utf8-cons c (s ++ t) (ground arith) ∙ is_utf8-IsDecimal s t d.1

pub is_utf8_dotted : (s t : Str) → IsDecimal s → IsDecimal t → is_utf8 (s ++ b'.' ∷ t) ≡ true
unfolding is_utf8
is_utf8_dotted s t ds dt =
    is_utf8-IsDecimal s (b'.' ∷ t) ds
    ∙ is_utf8-cons b'.' t (omega arith)
    ∙ ap is_utf8 (sym (append-nil t))
    ∙ is_utf8-IsDecimal t [] dt

-- Digits hold no full stop, so the split is where the first one stands.
pub split_once-IsDecimal : (s t : Str) → IsDecimal s → split_once b'.' (s ++ b'.' ∷ t) ≡ (s, some t)
split_once-IsDecimal [] t d = refl
split_once-IsDecimal (c ∷ s) t d = ground (arith, split_once-IsDecimal s t d.1)
