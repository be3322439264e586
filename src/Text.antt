-- ===== src/Text.antt =====
-- What the program uses of Python's `str` and `int(...)`, over the code points of a text: `strip`,
-- `split`, `" ".join`, `len` and the conversion to a number, with Unicode's white space and digits.
pub mod Laws
use Prim.Native.Char.{Char, code}
use Prim.Native.String.{String, [] as empty, ◌∷◌ as ◌∷ₛ◌}
use async_job_processing_pip.Prelude.{
  ℕ, suc, ◌+◌, ◌-◌, ◌*◌, Bool, true, false, not, ◌&&◌, ◌||◌, List, [], ◌∷◌, Option, none, some, ltb,
  leb, ◌==◌, nat_eq, if◌then◌else◌, any,
}
use async_job_processing_pip.Prelude.Int.{ℤ, pos, negsuc, sub_ℕ}

-- `len(s)`: the code points.
unfoldable pub len : String → ℕ
len String.[] = 0
len (String.◌∷◌ c s) = suc (len s)

unfoldable pub is_empty : String → Bool
is_empty String.[] = true
is_empty (String.◌∷◌ c s) = false

-- The text of an optional field where the field is truthy, as in `if request.idempotency_key:`.
unfoldable pub truthy : Option String → Option String
unfolding is_empty
truthy none = none
truthy (some s) = if is_empty s then none else some s

abbrev in_range : ℕ → ℕ → ℕ → Bool
in_range lo hi c = leb lo c && leb c hi

-- `str.isspace` on one character.
unfoldable pub is_space : ℕ → Bool
is_space c =
    in_range 0x9 0xd c
    || in_range 0x1c 0x20 c
    || c == 0x85
    || c == 0xa0
    || c == 0x1680
    || in_range 0x2000 0x200a c
    || c == 0x2028
    || c == 0x2029
    || c == 0x202f
    || c == 0x205f
    || c == 0x3000

lstrip : String → String
lstrip String.[] = ""
lstrip (String.◌∷◌ c s) = let rest = lstrip s in if is_space (code c) then rest else String.◌∷◌ c s

rstrip : String → String
unfolding is_empty
rstrip String.[] = ""
rstrip (String.◌∷◌ c s) =
    let rest = rstrip s in if is_empty rest && is_space (code c) then "" else String.◌∷◌ c rest

-- `s.strip()`
unfoldable pub strip : String → String
unfolding lstrip rstrip is_space
strip s = rstrip (lstrip s)

push_word : String → List String → List String
push_word String.[] ws = ws
push_word (String.◌∷◌ c w) ws = String.◌∷◌ c w ∷ ws

-- The word that a text begins with, empty if it begins with white space, and the words after it.
words : String → String × List String
unfolding push_word
words String.[] = ("", [])
words (String.◌∷◌ c s) =
    let (w, ws) = words s in
    if is_space (code c) then ("", push_word w ws) else (String.◌∷◌ c w, ws)

-- `s.split()`
unfoldable pub split : String → List String
unfolding words is_space
split s = let (w, ws) = words s in push_word w ws

unfoldable pub append : String → String → String
append String.[] t = t
append (String.◌∷◌ c s) t = String.◌∷◌ c (append s t)

-- `" ".join(parts)`
unfoldable pub join : List String → String
unfolding append
join [] = ""
join (p ∷ []) = p
join (p ∷ q ∷ ps) = append p (append " " (join (q ∷ ps)))

-- The zeros of Unicode's decimal digits; the digits 1 to 9 follow each.
decimal_zeros : List ℕ
decimal_zeros =
    0x30 ∷ 0x660 ∷ 0x6f0 ∷ 0x7c0 ∷ 0x966 ∷ 0x9e6 ∷ 0xa66 ∷ 0xae6 ∷ 0xb66 ∷ 0xbe6 ∷ 0xc66 ∷ 0xce6
    ∷ 0xd66 ∷ 0xde6 ∷ 0xe50 ∷ 0xed0 ∷ 0xf20 ∷ 0x1040 ∷ 0x1090 ∷ 0x17e0 ∷ 0x1810 ∷ 0x1946 ∷ 0x19d0
    ∷ 0x1a80 ∷ 0x1a90 ∷ 0x1b50 ∷ 0x1bb0 ∷ 0x1c40 ∷ 0x1c50 ∷ 0xa620 ∷ 0xa8d0 ∷ 0xa900 ∷ 0xa9d0
    ∷ 0xa9f0 ∷ 0xaa50 ∷ 0xabf0 ∷ 0xff10 ∷ 0x104a0 ∷ 0x10d30 ∷ 0x11066 ∷ 0x110f0 ∷ 0x11136 ∷ 0x111d0
    ∷ 0x112f0 ∷ 0x11450 ∷ 0x114d0 ∷ 0x11650 ∷ 0x116c0 ∷ 0x11730 ∷ 0x118e0 ∷ 0x11950 ∷ 0x11c50
    ∷ 0x11d50 ∷ 0x11da0 ∷ 0x16a60 ∷ 0x16ac0 ∷ 0x16b50 ∷ 0x1d7ce ∷ 0x1d7d8 ∷ 0x1d7e2 ∷ 0x1d7ec
    ∷ 0x1d7f6 ∷ 0x1e140 ∷ 0x1e2f0 ∷ 0x1e950 ∷ 0x1fbf0 ∷ []

digit_from : List ℕ → ℕ → Option ℕ
digit_from [] c = none
digit_from (zero_digit ∷ zs) c =
    let rest = digit_from zs c in
    if in_range zero_digit (zero_digit + 9) c then some (c - zero_digit) else rest

unfoldable pub digit_value : ℕ → Option ℕ
unfolding digit_from decimal_zeros
digit_value c = digit_from decimal_zeros c

-- The digits of `int(s)`, with single underscores between them; `need` says that a digit must come.
digits_from : Bool → ℕ → String → Option ℕ
digits_from need n String.[] = if need then none else some n
digits_from need n (String.◌∷◌ c s) = elim (digit_value (code c)) [
  | some d ↦ digits_from false (n * 10 + d) s
  | none ↦ elim (code c == b'_' && not need) [ true ↦ digits_from true n s | false ↦ none ]
]

negate : ℕ → ℤ
negate n = sub_ℕ 0 n

-- `int(s)` of a text with no white space round it; `none` is `ValueError`.
unfoldable pub int_of_text : String → Option ℤ
unfolding digits_from negate digit_value
int_of_text String.[] = none
int_of_text (String.◌∷◌ c s) =
    if code c == b'-'
    then elim (digits_from true 0 s) [ none ↦ none | some n ↦ some (negate n) ]
    else if code c == b'+'
    then elim (digits_from true 0 s) [ none ↦ none | some n ↦ some (pos n) ]
    else elim (digits_from true 0 (String.◌∷◌ c s)) [ none ↦ none | some n ↦ some (pos n) ]

-- `s.startswith("*/")`, with what is left as `s[2:]`.
unfoldable pub after_star_slash : String → Option String
after_star_slash (String.◌∷◌ a (String.◌∷◌ b s)) =
    if code a == b'*' && code b == b'/' then some s else none
after_star_slash _ = none
