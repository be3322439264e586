-- ===== src/Jobs/Ids/Text.antt =====
-- `str` of an identifier and `UUID` of a text, as app/queue/kafka.py writes the one and app/worker.py
-- reads it.
use Prim.Native.Char.{Char, code}
use Prim.Native.String.{String}
use native.Mathlib.Nat.{div-add-mod, div-div-eq-div-mul, pow-suc, div-eq_of_lt}
use native.Mathlib.Omega.{mod_fact}
use async_job_processing_pip.Prelude.{
  ℕ, zero, suc, ◌+◌, ◌*◌, ◌/◌, ◌%◌, ◌^◌, ◌≤◌, ◌<◌, ◌≡◌, refl, sym, ap, ◌∙◌, inl, inr, Bool, true,
  false, not, ◌&&◌, ◌||◌, some, List, [], ◌∷◌, ltb, ◌==◌, nat_eq, arith, Bool-cases, length,
}
use async_job_processing_pip.Text.{len, is_space, digit_value}
use async_job_processing_pip.Core.Errors.{ok}
use async_job_processing_pip.Jobs.{Uuid, uuid_text, hex_digits, nth_char, hex_from}
use async_job_processing_pip.Jobs.Ids.{
  starts_with, remove_from, remove, lstrip_if, rstrip_if, strip_if, is_brace, hex_value,
  hex_digits_from, hex_number, unsigned_hex, uuid_of, parse_job_id,
}

-- The number of the `k` last hexadecimal digits.
abbrev digit_at : ℕ → ℕ → ℕ
digit_at k n = n / 16 ^ k % 16

abbrev last_digits : ℕ → ℕ → ℕ
last_digits zero n = 0
last_digits (suc k) n = digit_at k n * 16 ^ k + last_digits k n

next_digit : (p q r l : ℕ) → r * p + l + p * 16 * q ≡ l + p * (16 * q + r)
next_digit p q r l = omega arith

last_digits_rest : (k n : ℕ) → last_digits k n + 16 ^ k * (n / 16 ^ k) ≡ n
last_digits_rest zero n = omega arith
last_digits_rest (suc k) n =
    let rest = last_digits_rest k n in
    let split = div-add-mod (n / 16 ^ k) 16 in
    let div = div-div-eq-div-mul n (16 ^ k) 16 in
    let pow : 16 ^ suc k ≡ 16 ^ k * 16 = pow-suc 16 k in
    rw (pow, sym div)
      (next_digit (16 ^ k) (n / 16 ^ k / 16) (digit_at k n) (last_digits k n)
        ∙ ap (λ q. last_digits k n + 16 ^ k * q) split
        ∙ rest)

last_digits_small : (k n : ℕ) → n < 16 ^ k → last_digits k n ≡ n
last_digits_small k n small =
    let none_left : n / 16 ^ k ≡ 0 = div-eq_of_lt small in
    let rest : last_digits k n + 16 ^ k * 0 ≡ n = rw none_left at (last_digits_rest k n) in
    omega (arith, rest)

-- Every character of a text passes a test.
abbrev Every : (ℕ → Bool) → String → Type 0
Every test String.[] = Unit
Every test (String.◌∷◌ c s) = (test (code c) ≡ true) × Every test s

module _ (test : ℕ → Bool) where
  abbrev all_pass : List Char → Bool
  all_pass [] = true
  all_pass (c ∷ cs) = let rest = all_pass cs in test (code c) && rest

  nth_char-passes :
      (cs : List Char) (i : ℕ)
      → test (code "0") ≡ true
      → all_pass cs ≡ true
      → test (code (nth_char cs i)) ≡ true
  unfolding nth_char
  nth_char-passes [] i first h = first
  nth_char-passes (c ∷ cs) zero first h = ground (arith, h)
  nth_char-passes (c ∷ cs) (suc i) first h = nth_char-passes cs i first (ground (arith, h))

  hex_from-Every :
      (k n : ℕ) → all_pass hex_digits ≡ true → test b'-' ≡ true → Every test (hex_from k n)
  unfolding hex_from hex_digits
  hex_from-Every zero n h dash = tt
  hex_from-Every (suc k) n h dash =
      let here = nth_char-passes hex_digits (digit_at k n) (ground (arith, h)) h in
      let rest = hex_from-Every k n h dash in
      elim (Bool-cases (k == 24 || k == 20 || k == 16 || k == 12)) [
        | inl dashed ↦ rw dashed (here, (dash, rest))
        | inr plain ↦ rw plain (here, rest)
      ]

-- Removing what does not begin anywhere changes nothing.
remove_none :
    (p : Char) (ps s : String) → Every (λ c. not (code p == c)) s → remove (String.◌∷◌ p ps) s ≡ s
unfolding remove_from starts_with
remove_none p ps String.[] h = refl
remove_none p ps (String.◌∷◌ c s) h = let rest = remove_none p ps s h.1 in ground (arith, h.0, rest)

module _ (test : ℕ → Bool) where
  lstrip_none : (s : String) → Every (λ c. not (test c)) s → lstrip_if test s ≡ s
  unfolding lstrip_if
  lstrip_none String.[] h = refl
  lstrip_none (String.◌∷◌ c s) h = ground (arith, h.0)

  rstrip_none : (s : String) → Every (λ c. not (test c)) s → rstrip_if test s ≡ s
  unfolding rstrip_if
  rstrip_none String.[] h = refl
  rstrip_none (String.◌∷◌ c s) h = let rest = rstrip_none s h.1 in ground (arith, h.0, rest)

  strip_none : (s : String) → Every (λ c. not (test c)) s → strip_if test s ≡ s
  strip_none s h = ap (rstrip_if test) (lstrip_none s h) ∙ rstrip_none s h

-- The digits without the dashes.
abbrev plain : ℕ → ℕ → String
plain zero n = ""
plain (suc k) n = String.◌∷◌ (nth_char hex_digits (digit_at k n)) (plain k n)

length-plain : (k n : ℕ) → len (plain k n) ≡ k
unfolding len
length-plain zero n = refl
length-plain (suc k) n = ap suc (length-plain k n)

plain-Every : (test : ℕ → Bool) (k n : ℕ) → all_pass test hex_digits ≡ true → Every test (plain k n)
unfolding hex_digits
plain-Every test zero n h = tt
plain-Every test (suc k) n h =
    (nth_char-passes test hex_digits (digit_at k n) (ground (arith, h)) h, plain-Every test k n h)

-- The dashes are removed.
undashed : (k n : ℕ) → remove "-" (hex_from k n) ≡ plain k n
unfolding hex_from remove_from starts_with hex_digits len
undashed zero n = refl
undashed (suc k) n =
    let no_dash : (b'-' == code (nth_char hex_digits (digit_at k n))) ≡ false =
      ground (arith, nth_char-passes (λ c. not (b'-' == c)) hex_digits (digit_at k n) refl refl) in
    let rest = undashed k n in
    elim (Bool-cases (k == 24 || k == 20 || k == 16 || k == 12)) [
      | inl dashed ↦
          rw dashed (rw no_dash (ap (String.◌∷◌ (nth_char hex_digits (digit_at k n))) rest))
      | inr solid ↦
          rw solid (rw no_dash (ap (String.◌∷◌ (nth_char hex_digits (digit_at k n))) rest))
    ]

-- The digits have the values that they are chosen for.
abbrev AreValues : ℕ → List Char → Type 0
AreValues k [] = Unit
AreValues k (c ∷ cs) = (hex_value (code c) ≡ some k) × AreValues (suc k) cs

nth_char-value :
    (k : ℕ) (cs : List Char) (i : ℕ)
    → AreValues k cs
    → i < length cs
    → hex_value (code (nth_char cs i)) ≡ some (k + i)
unfolding nth_char
nth_char-value k [] i h low = absurd (omega (arith, low))
nth_char-value k (c ∷ cs) zero h low = h.0 ∙ ap some (omega arith)
nth_char-value k (c ∷ cs) (suc i) h low =
    nth_char-value (suc k) cs i h.1 (omega (arith, low)) ∙ ap some (omega arith)

hex_digits-AreValues : AreValues 0 hex_digits
unfolding hex_digits hex_value digit_value
hex_digits-AreValues = (
  refl,
  (
    refl,
    (
      refl,
      (
        refl,
        (
          refl,
          (
            refl,
            (refl, (refl, (refl, (refl, (refl, (refl, (refl, (refl, (refl, (refl, tt)))))))))),
          ),
        ),
      ),
    ),
  ),
)

shifted : (m d p l : ℕ) → (m * 16 + d) * p + l ≡ m * (p * 16) + (d * p + l)
shifted m d p l = omega arith

next_number : (m d k l : ℕ) → (m * 16 + d) * 16 ^ k + l ≡ m * 16 ^ suc k + (d * 16 ^ k + l)
next_number m d k l =
    shifted m d (16 ^ k) l ∙ ap (λ p. m * p + (d * 16 ^ k + l)) (sym (pow-suc 16 k))

one_digit :
    (need : Bool) (m : ℕ) (c : Char) (s : String) {d : ℕ}
    → hex_value (code c) ≡ some d
    → hex_digits_from need m (String.◌∷◌ c s) ≡ hex_digits_from false (m * 16 + d) s
unfolding hex_digits_from
one_digit need m c s h = rw (h, hex_digits_from) refl

-- Reading the digits gives their number.
hex_digits_from-plain :
    (need : Bool) (m k n : ℕ)
    → not need || ltb 0 k ≡ true
    → hex_digits_from need m (plain k n) ≡ some (m * 16 ^ k + last_digits k n)
unfolding hex_digits_from hex_digits
hex_digits_from-plain need m zero n h = ground (arith, h)
hex_digits_from-plain need m (suc k) n h =
    let digit = digit_at k n in
    let sixteen : length hex_digits ≡ 16 = refl in
    let value : hex_value (code (nth_char hex_digits digit)) ≡ some digit =
      nth_char-value 0 hex_digits digit hex_digits-AreValues
        (omega (arith, sixteen, mod_fact (n / 16 ^ k) 15))
      ∙ ap some (omega arith) in
    let rest = hex_digits_from-plain false (m * 16 + digit) k n refl in
    one_digit need m (nth_char hex_digits digit) (plain k n) value
    ∙ rest
    ∙ ap some (next_number m digit k (last_digits k n))

unsigned_hex-plain : (k n : ℕ) → 3 ≤ k → n < 16 ^ k → unsigned_hex (plain k n) ≡ some n
unfolding unsigned_hex hex_number hex_digits
unsigned_hex-plain zero n at_least small = absurd (omega (arith, at_least))
unsigned_hex-plain (suc zero) n at_least small = absurd (omega (arith, at_least))
unsigned_hex-plain (suc (suc zero)) n at_least small = absurd (omega (arith, at_least))
unsigned_hex-plain (suc (suc (suc k))) n at_least small =
    let a = nth_char hex_digits (digit_at (suc (suc k)) n) in
    let b = nth_char hex_digits (digit_at (suc k) n) in
    let not_minus : (code a == b'-') ≡ false = ground (
      arith,
      nth_char-passes (λ c. not (c == b'-')) hex_digits (digit_at (suc (suc k)) n) refl refl,
    ) in
    let not_plus : (code a == b'+') ≡ false = ground (
      arith,
      nth_char-passes (λ c. not (c == b'+')) hex_digits (digit_at (suc (suc k)) n) refl refl,
    ) in
    let not_x : (code b == b'x' || code b == b'X') ≡ false = ground (
      arith,
      nth_char-passes (λ c. not (c == b'x' || c == b'X')) hex_digits (digit_at (suc k) n) refl refl,
    ) in
    let number = hex_digits_from-plain true 0 (suc (suc (suc k))) n (ground arith) in
    let whole : 0 * 16 ^ suc (suc (suc k)) + last_digits (suc (suc (suc k))) n ≡ n =
      omega (arith, last_digits_small (suc (suc (suc k))) n small) in
    ground (arith, not_minus, not_plus, not_x, number, whole)

parse_job_id_ok :
    (text hex : String) (i : Uuid)
    → remove "-" (strip_if is_brace (remove "uuid:" (remove "urn:" text))) ≡ hex
    → len hex ≡ 32
    → strip_if is_space hex ≡ hex
    → unsigned_hex hex ≡ some i
    → parse_job_id text ≡ ok i
unfolding parse_job_id uuid_of
parse_job_id_ok text hex i cleaned long solid number =
    rw (cleaned, uuid_of, parse_job_id) (rw long (rw solid (rw number refl)))

-- The text of an identifier is read back as that identifier.
pub parse_job_id-uuid_text : (i : Uuid) → i < 2 ^ 128 → parse_job_id (uuid_text i) ≡ ok i
unfolding uuid_text is_space
parse_job_id-uuid_text i small =
    let text = hex_from 32 i in
    let no_urn : remove "urn:" text ≡ text =
      remove_none "u" "rn:" text (hex_from-Every (λ c. not (b'u' == c)) 32 i refl refl) in
    let no_uuid : remove "uuid:" text ≡ text =
      remove_none "u" "uid:" text (hex_from-Every (λ c. not (b'u' == c)) 32 i refl refl) in
    let unbraced : strip_if is_brace text ≡ text =
      strip_none is_brace text (hex_from-Every (λ c. not (is_brace c)) 32 i refl refl) in
    let hex : remove "-" (strip_if is_brace (remove "uuid:" (remove "urn:" text))) ≡ plain 32 i =
      ap (λ s. remove "-" (strip_if is_brace (remove "uuid:" s))) no_urn
      ∙ ap (λ s. remove "-" (strip_if is_brace s)) no_uuid
      ∙ ap (remove "-") unbraced
      ∙ undashed 32 i in
    let solid : strip_if is_space (plain 32 i) ≡ plain 32 i =
      strip_none is_space (plain 32 i) (plain-Every (λ c. not (is_space c)) 32 i refl) in
    parse_job_id_ok text (plain 32 i) i hex (length-plain 32 i) solid
      (unsigned_hex-plain 32 i (omega arith) small)
