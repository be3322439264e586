-- ===== src/Core/Json.antt =====
-- JSON values, which payloads, results and error details are, and `json.dumps(value,
-- separators=(",", ":"))` of them as the program calls it in app/jobs/service.py.
pub mod Ascii
use Prim.Native.Char.{Char, code}
use Prim.Native.String.{String}
use async_job_processing_pip.Prelude.{
  ℕ, zero, suc, ◌+◌, ◌-◌, ◌/◌, ◌%◌, Bool, true, false, ◌&&◌, ◌||◌, List, [], ◌∷◌, ◌++◌, Option,
  none, some, ltb, leb, ◌==◌, nat_eq, string_eq, if◌then◌else◌,
}
use async_job_processing_pip.Prelude.Int.{ℤ, pos, negsuc}

-- A `float` is the text that `repr` gives it, of ASCII characters.
mutual
  pub data Json : Type 0 where
    null : Json
    bool : Bool → Json
    int : ℤ → Json
    float : String → Json
    str : String → Json
    arr : Items → Json
    obj : Payload → Json

  pub data Items : Type 0 where
    end : Items
    item : Json → Items → Items

  -- `dict[str, Any]`, in the order of insertion.
  pub data Payload : Type 0 where
    empty : Payload
    field : String → Json → Payload → Payload

-- `payload.get(key)`
unfoldable pub payload_get : String → Payload → Option Json
payload_get key empty = none
payload_get key (field k v rest) =
    let later = payload_get key rest in if k == key then some v else later

abbrev pub codes : String → List ℕ
codes String.[] = []
codes (String.◌∷◌ c s) = code c ∷ codes s

-- The decimal digits of a number; a number has at most as many digits as its successor counts.
decimal_from : ℕ → ℕ → List ℕ → List ℕ
decimal_from zero n out = out
decimal_from (suc fuel) n out =
    let d = 48 + n % 10 in
    let more = decimal_from fuel (n / 10) (d ∷ out) in if ltb n 10 then d ∷ out else more

decimal : ℕ → List ℕ
unfolding decimal_from
decimal n = decimal_from (suc n) n []

dump_int : ℤ → List ℕ
unfolding decimal
dump_int (pos n) = decimal n
dump_int (negsuc n) = b'-' ∷ decimal (suc n)

hex_digit : ℕ → ℕ
hex_digit d = if ltb d 10 then 48 + d else 87 + d

-- `\uXXXX`
unicode_escape : ℕ → List ℕ
unfolding hex_digit
unicode_escape u =
    b'\\'
    ∷ b'u'
    ∷ hex_digit (u / 4096 % 16)
    ∷ hex_digit (u / 256 % 16)
    ∷ hex_digit (u / 16 % 16)
    ∷ hex_digit (u % 16)
    ∷ []

-- One character, with `ensure_ascii`: a code point past the basic plane is a surrogate pair.
escape : ℕ → List ℕ
unfolding unicode_escape
escape c =
    if c == b'"'
    then b'\\' ∷ b'"' ∷ []
    else if c == b'\\'
    then b'\\' ∷ b'\\' ∷ []
    else if c == 10
    then b'\\' ∷ b'n' ∷ []
    else if c == 13
    then b'\\' ∷ b'r' ∷ []
    else if c == 9
    then b'\\' ∷ b't' ∷ []
    else if c == 12
    then b'\\' ∷ b'f' ∷ []
    else if c == 8
    then b'\\' ∷ b'b' ∷ []
    else if leb 32 c && leb c 126
    then c ∷ []
    else if ltb c 65536
    then unicode_escape c
    else unicode_escape (55296 + (c - 65536) / 1024) ++ unicode_escape (56320 + (c - 65536) % 1024)

escape_all : List ℕ → List ℕ
unfolding escape
escape_all [] = []
escape_all (c ∷ cs) = escape c ++ escape_all cs

unfoldable pub dump_text : String → List ℕ
unfolding escape_all
dump_text s = b'"' ∷ escape_all (codes s) ++ b'"' ∷ []

unfoldable mutual
  unfolding dump_int dump_text

  pub dump : Json → List ℕ
  dump null = codes "null"
  dump (bool true) = codes "true"
  dump (bool false) = codes "false"
  dump (int n) = dump_int n
  dump (float s) = codes s
  dump (str s) = dump_text s
  dump (arr xs) = b'[' ∷ dump_items xs ++ b']' ∷ []
  dump (obj fs) = b'{' ∷ dump_fields fs ++ b'}' ∷ []

  pub dump_items : Items → List ℕ
  dump_items end = []
  dump_items (item x end) = dump x
  dump_items (item x (item y ys)) = dump x ++ b',' ∷ dump_items (item y ys)

  pub dump_fields : Payload → List ℕ
  dump_fields empty = []
  dump_fields (field k v empty) = dump_text k ++ b':' ∷ dump v
  dump_fields (field k v (field j w fs)) =
      dump_text k ++ b':' ∷ dump v ++ b',' ∷ dump_fields (field j w fs)
