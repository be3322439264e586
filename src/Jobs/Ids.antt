-- ===== src/Jobs/Ids.antt =====
-- `uuid.UUID(text)`, which app/worker.py and `parse_job_id` of app/jobs/service.py read an identifier by,
-- over the code points of the text.
pub mod Text
use Prim.Native.Char.{Char, code}
use Prim.Native.String.{String}
use async_job_processing_pip.Prelude.{
  ℕ, zero, suc, ◌+◌, ◌-◌, ◌*◌, ◌^◌, Bool, true, false, not, ◌&&◌, ◌||◌, Option, none, some, ltb,
  leb, ◌==◌, nat_eq, if◌then◌else◌,
}
use async_job_processing_pip.Text.{len, is_empty, is_space, digit_value}
use async_job_processing_pip.Core.Errors.{Result, ok, err, value_error}
use async_job_processing_pip.Jobs.{Uuid}

-- `s.startswith(pattern)`
unfoldable pub starts_with : String → String → Bool
starts_with String.[] s = true
starts_with (String.◌∷◌ p ps) String.[] = false
starts_with (String.◌∷◌ p ps) (String.◌∷◌ c s) = code p == code c && starts_with ps s

-- `s.replace(pattern, "")`, of which the first `skip` characters are part of a match.
unfoldable pub remove_from : ℕ → String → String → String
unfolding starts_with
remove_from skip pattern String.[] = ""
remove_from (suc skip) pattern (String.◌∷◌ c s) = remove_from skip pattern s
remove_from zero pattern (String.◌∷◌ c s) =
    let matched = remove_from (len pattern - 1) pattern s in
    let rest = remove_from zero pattern s in
    if starts_with pattern (String.◌∷◌ c s) then matched else String.◌∷◌ c rest

abbrev pub remove : String → String → String
remove pattern s = remove_from zero pattern s

-- `s.strip(...)` of the characters that pass a test.
unfoldable pub lstrip_if : (ℕ → Bool) → String → String
lstrip_if test String.[] = ""
lstrip_if test (String.◌∷◌ c s) =
    let rest = lstrip_if test s in if test (code c) then rest else String.◌∷◌ c s

unfoldable pub rstrip_if : (ℕ → Bool) → String → String
rstrip_if test String.[] = ""
rstrip_if test (String.◌∷◌ c s) =
    let rest = rstrip_if test s in if is_empty rest && test (code c) then "" else String.◌∷◌ c rest

abbrev pub strip_if : (ℕ → Bool) → String → String
strip_if test s = rstrip_if test (lstrip_if test s)

abbrev pub is_brace : ℕ → Bool
is_brace c = c == b'{' || c == b'}'

-- A hexadecimal digit: a decimal one of any script, or a Latin letter.
unfoldable pub hex_value : ℕ → Option ℕ
hex_value c = elim (digit_value c) [
  | some d ↦ some d
  | none ↦
      if leb b'a' c && leb c b'f'
      then some (c - 87)
      else if leb b'A' c && leb c b'F'
      then some (c - 55)
      else none
]

-- The digits of `int(s, 16)`, with single underscores between them; `need` says that a digit must come.
unfoldable pub hex_digits_from : Bool → ℕ → String → Option ℕ
hex_digits_from need n String.[] = if need then none else some n
hex_digits_from need n (String.◌∷◌ c s) = elim (hex_value (code c)) [
  | some d ↦ hex_digits_from false (n * 16 + d) s
  | none ↦ elim (code c == b'_' && not need) [ true ↦ hex_digits_from true n s | false ↦ none ]
]

-- What comes after the sign: "0x" may stand first, and an underscore after it.
unfoldable pub hex_number : String → Option ℕ
hex_number (String.◌∷◌ a (String.◌∷◌ b (String.◌∷◌ c s))) =
    if code a == b'0' && (code b == b'x' || code b == b'X')
    then if code c == b'_'
      then hex_digits_from true 0 s
      else hex_digits_from true 0 (String.◌∷◌ c s)
    else hex_digits_from true 0 (String.◌∷◌ a (String.◌∷◌ b (String.◌∷◌ c s)))
hex_number s = hex_digits_from true 0 s

-- `int(s, 16)`, where a number below zero is none too: an identifier has none.
unfoldable pub unsigned_hex : String → Option ℕ
unsigned_hex String.[] = none
unsigned_hex (String.◌∷◌ c s) =
    if code c == b'-'
    then elim (hex_number s) [ some zero ↦ some zero | _ ↦ none ]
    else if code c == b'+'
    then hex_number s
    else hex_number (String.◌∷◌ c s)

-- `UUID(text)`: `none` is the `ValueError` of a text that is no identifier.
unfoldable pub uuid_of : String → Option Uuid
uuid_of text =
    let hex = remove "-" (strip_if is_brace (remove "uuid:" (remove "urn:" text))) in
    if len hex == 32 then unsigned_hex (strip_if is_space hex) else none

unfoldable pub parse_job_id : String → Result Uuid
unfolding uuid_of
parse_job_id text = elim (uuid_of text) [
  | some job_id ↦ ok job_id
  | none ↦ err (value_error "badly formed hexadecimal UUID string")
]
