-- ===== src/Sorting/Stable.antt =====
-- `sorted` is stable: what passes a test comes in the same order, sorted before or after.
use async_job_processing_pip.Prelude.{
  Bool, true, false, ◌≡◌, refl, inl, inr, List, [], ◌∷◌, All, Bool-cases, keep, if◌then◌else◌,
  arith,
}
use async_job_processing_pip.Sorting.{insert, sorted}
use async_job_processing_pip.Sorting.Laws.{IsSorted, below-All, keep-All, sorted-IsSorted}

module _ {ℓ} {A : Type ℓ} (le : A → A → Bool) where
  insert-first : (x : A) (ys : List A) → All (λ y. le x y ≡ true) ys → insert le x ys ≡ x ∷ ys
  unfolding insert
  insert-first x [] h = refl
  insert-first x (y ∷ ys) h = rw h.0 refl

  module _ (total : (a b : A) → le a b ≡ false → le b a ≡ true)
      (trans : (a b c : A) → le a b ≡ true → le b c ≡ true → le a c ≡ true) (test : A → Bool) where
    keep-insert :
        (x : A) (ys : List A)
        → IsSorted le ys
        → keep test (insert le x ys) ≡ (if test x then insert le x (keep test ys) else keep test ys)
    unfolding insert
    keep-insert x [] s = elim (Bool-cases (test x)) [ inl t ↦ rw t refl | inr f ↦ rw f refl ]
    keep-insert x (y ∷ ys) (first, s) =
        let rest = keep-insert x ys s in
        elim (Bool-cases (le x y)) [
          | inl before ↦
              let above : All (λ z. le x z ≡ true) (y ∷ ys) =
                (before, below-All le total trans x y ys before first) in
              let head =
                insert-first x (keep test (y ∷ ys))
                  (keep-All le test (λ z. le x z ≡ true) (y ∷ ys) above) in
              elim (Bool-cases (test x)) [
                | inl t ↦ rw before (rw t (rw head refl))
                | inr f ↦ rw before (rw f refl)
              ]
          | inr after ↦ elim (Bool-cases (test y)) [
            | inl t ↦ elim (Bool-cases (test x)) [
              | inl t' ↦ ground (arith, after, t, t', rest)
              | inr f' ↦ ground (arith, after, t, f', rest)
            ]
            | inr f ↦ rw after (rw f rest)
          ]
        ]

    pub keep-sorted : (xs : List A) → keep test (sorted le xs) ≡ sorted le (keep test xs)
    unfolding sorted
    keep-sorted [] = refl
    keep-sorted (x ∷ xs) =
        let rest = keep-sorted xs in
        let step = keep-insert x (sorted le xs) (sorted-IsSorted le total trans xs) in
        elim (Bool-cases (test x)) [
          | inl t ↦ ground (arith, step, rest, t)
          | inr f ↦ ground (arith, step, rest, f)
        ]
