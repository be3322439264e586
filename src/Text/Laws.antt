-- ===== src/Text/Laws.antt =====
-- Splitting a text into words and joining them again.
use Prim.Native.Char.{Char, code}
use async_job_processing_pip.Prelude.{
  String, ◌≡◌, refl, sym, ap, true, false, List, [], ◌∷◌, All, Bool-cases, inl, inr, ◌∙◌,
}
use async_job_processing_pip.Text.{
  is_space, is_empty, lstrip, rstrip, push_word, words, strip, split, append, join,
}

abbrev NoSpace : String → Type 0
NoSpace String.[] = Unit
NoSpace (String.◌∷◌ c s) = (is_space (code c) ≡ false) × NoSpace s

-- A word is not empty and has no white space.
pub record IsWord (w : String) : Type 0 where
  pub filled : is_empty w ≡ false
  pub solid : NoSpace w

push_word-IsWord :
    (w : String) (ws : List String) → NoSpace w → All IsWord ws → All IsWord (push_word w ws)
unfolding push_word is_empty
push_word-IsWord String.[] ws h a = a
push_word-IsWord (String.◌∷◌ c w) ws h a = (record { filled = refl; solid = h }, a)

module _ (c : Char) (s : String) where
  words_space :
      is_space (code c) ≡ true → words (String.◌∷◌ c s) ≡ ("", push_word (words s).0 (words s).1)
  unfolding words
  words_space h = rw h

  words_solid :
      is_space (code c) ≡ false → words (String.◌∷◌ c s) ≡ (String.◌∷◌ c (words s).0, (words s).1)
  unfolding words
  words_solid h = rw h

  lstrip_space : is_space (code c) ≡ true → lstrip (String.◌∷◌ c s) ≡ lstrip s
  unfolding lstrip
  lstrip_space h = rw h

  lstrip_solid : is_space (code c) ≡ false → lstrip (String.◌∷◌ c s) ≡ String.◌∷◌ c s
  unfolding lstrip
  lstrip_solid h = rw h

words-IsWord : (s : String) → NoSpace (words s).0 × All IsWord (words s).1
words-IsWord String.[] = unfold words in (tt, tt)
words-IsWord (String.◌∷◌ c s) =
    let (solid_word, rest) = words-IsWord s in
    elim (Bool-cases (is_space (code c))) [
      | inl space ↦
          rw (words_space c s space) (tt, push_word-IsWord (words s).0 (words s).1 solid_word rest)
      | inr solid ↦ rw (words_solid c s solid) ((solid, solid_word), rest)
    ]

pub split-IsWord : (s : String) → All IsWord (split s)
unfolding split
split-IsWord s = push_word-IsWord (words s).0 (words s).1 (words-IsWord s).0 (words-IsWord s).1

append-empty : (s : String) → append s "" ≡ s
unfolding append
append-empty String.[] = refl
append-empty (String.◌∷◌ c s) = ap (String.◌∷◌ c) (append-empty s)

words-append : (w s : String) → NoSpace w → words (append w s) ≡ (append w (words s).0, (words s).1)
unfolding words append
words-append String.[] s h = refl
words-append (String.◌∷◌ c w) s h = rw (words-append w s h.1) (rw h.0 refl)

words-space : (s : String) → words (append " " s) ≡ ("", split s)
unfolding words append split is_space
words-space s = refl

push_word_filled : (w : String) (ws : List String) → is_empty w ≡ false → push_word w ws ≡ w ∷ ws
unfolding push_word is_empty
push_word_filled String.[] ws h = cc
push_word_filled (String.◌∷◌ c w) ws h = refl

words-word : (w : String) → IsWord w → words w ≡ (w, [])
unfolding append words
words-word w h = rw (append-empty w) at (words-append w "" h.solid)

split-words :
    (s w : String) (ws : List String) → words s ≡ (w, ws) → is_empty w ≡ false → split s ≡ w ∷ ws
unfolding split
split-words s w ws e h = rw e (push_word_filled w ws h)

join_step :
    (w v : String) (ws : List String)
    → IsWord w
    → split (join (v ∷ ws)) ≡ v ∷ ws
    → words (join (w ∷ v ∷ ws)) ≡ (w, v ∷ ws)
join_step w v ws h e =
    unfold join in
    rw (words-append w (append " " (join (v ∷ ws))) h.solid)
      (rw (words-space (join (v ∷ ws))) (rw (append-empty, e)))

words-join :
    (w : String) (ws : List String) → IsWord w → All IsWord ws → words (join (w ∷ ws)) ≡ (w, ws)
words-join w [] h a = unfold join in words-word w h
words-join w (v ∷ ws) h a =
    join_step w v ws h (split-words (join (v ∷ ws)) v ws (words-join v ws a.0 a.1) a.0.filled)

-- Words joined by single spaces are split into the same words.
pub split-join : (ws : List String) → All IsWord ws → split (join ws) ≡ ws
split-join [] a = unfold split join in refl
split-join (w ∷ ws) a = split-words (join (w ∷ ws)) w ws (words-join w ws a.0 a.1) a.0.filled

split_space : (c : Char) (s : String) → is_space (code c) ≡ true → split (String.◌∷◌ c s) ≡ split s
unfolding split
split_space c s h = rw (words_space c s h)

split-lstrip : (s : String) → split (lstrip s) ≡ split s
split-lstrip String.[] = unfold lstrip in refl
split-lstrip (String.◌∷◌ c s) =
    let rest = split-lstrip s in
    elim (Bool-cases (is_space (code c))) [
      | inl space ↦ rw (lstrip_space c s space, split_space c s space) rest
      | inr solid ↦ rw (lstrip_solid c s solid)
    ]

words-empty : (s : String) → is_empty s ≡ true → words s ≡ ("", [])
unfolding words is_empty
words-empty String.[] h = refl
words-empty (String.◌∷◌ c s) h = cc

split_eq : (s r : String) → words s ≡ words r → split s ≡ split r
unfolding split
split_eq s r e = rw e

rstrip_step :
    (c : Char) (s : String)
    → words (rstrip s) ≡ words s
    → words (rstrip (String.◌∷◌ c s)) ≡ words (String.◌∷◌ c s)
unfolding rstrip
rstrip_step c s ih = elim (Bool-cases (is_space (code c))) [
  | inr solid ↦ elim (Bool-cases (is_empty (rstrip s))) [
    | inl e ↦ rw (solid, e) (rw (words_solid c (rstrip s) solid, words_solid c s solid, ih))
    | inr f ↦ rw f (rw (words_solid c (rstrip s) solid, words_solid c s solid, ih))
  ]
  | inl space ↦ elim (Bool-cases (is_empty (rstrip s))) [
    | inl e ↦
        let none_left : words s ≡ ("", []) = sym ih ∙ words-empty (rstrip s) e in
        rw (space, e) (rw (words_space c s space, none_left) (unfold words push_word in refl))
    | inr f ↦ rw f (rw (words_space c (rstrip s) space, words_space c s space, ih))
  ]
]

words-rstrip : (s : String) → words (rstrip s) ≡ words s
words-rstrip String.[] = unfold rstrip in refl
words-rstrip (String.◌∷◌ c s) = rstrip_step c s (words-rstrip s)

-- Stripping a text first does not change its words.
pub split-strip : (s : String) → split (strip s) ≡ split s
unfolding strip
split-strip s = split_eq (rstrip (lstrip s)) (lstrip s) (words-rstrip (lstrip s)) ∙ split-lstrip s
