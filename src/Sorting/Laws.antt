-- ===== src/Sorting/Laws.antt =====
-- `sorted`: the order and the members of its result.
use mathlib.Core.List.{Perm}
use mathlib.Core.List.Perm
use async_job_processing_pip.Prelude.{
  suc, Bool, true, false, ◌≡◌, refl, ap, ◌∙◌, inl, inr, List, [], ◌∷◌, All, Bool-cases, length,
  keep, if◌then◌else◌, arith,
}
use async_job_processing_pip.Sorting.{insert, sorted}

-- Each value stands before those that it is not above.
abbrev pub IsSorted {ℓ} : {A : Type ℓ} → (A → A → Bool) → List A → Type 0
IsSorted le [] = Unit
IsSorted le (x ∷ xs) = All (λ y. le x y ≡ true) xs × IsSorted le xs

module _ {ℓ} {A : Type ℓ} (le : A → A → Bool) (total : (a b : A) → le a b ≡ false → le b a ≡ true)
    (trans : (a b c : A) → le a b ≡ true → le b c ≡ true → le a c ≡ true) where
  pub below-All :
      (a b : A) (xs : List A)
      → le a b ≡ true
      → All (λ y. le b y ≡ true) xs
      → All (λ y. le a y ≡ true) xs
  below-All a b [] h s = tt
  below-All a b (x ∷ xs) h s = (trans a b x h s.0, below-All a b xs h s.1)

  below-insert :
      (a x : A) (xs : List A)
      → le a x ≡ true
      → All (λ y. le a y ≡ true) xs
      → All (λ y. le a y ≡ true) (insert le x xs)
  unfolding insert
  below-insert a x [] h s = (h, tt)
  below-insert a x (y ∷ ys) h s =
      let rest = below-insert a x ys h s.1 in
      elim (Bool-cases (le x y)) [ inl first ↦ rw first (h, s) | inr after ↦ rw after (s.0, rest) ]

  insert-IsSorted : (x : A) (xs : List A) → IsSorted le xs → IsSorted le (insert le x xs)
  unfolding insert
  insert-IsSorted x [] s = (tt, tt)
  insert-IsSorted x (y ∷ ys) s =
      let rest = insert-IsSorted x ys s.1 in
      elim (Bool-cases (le x y)) [
        | inl first ↦ rw first ((first, below-All x y ys first s.0), s)
        | inr after ↦ rw after (below-insert y x ys (total x y after) s.0, rest)
      ]

  -- The result ascends.
  pub sorted-IsSorted : (xs : List A) → IsSorted le (sorted le xs)
  unfolding sorted
  sorted-IsSorted [] = tt
  sorted-IsSorted (x ∷ xs) = insert-IsSorted x (sorted le xs) (sorted-IsSorted xs)

module _ {ℓ} {A : Type ℓ} (le : A → A → Bool) where
  insert-perm : (x : A) (xs : List A) → Perm (insert le x xs) (x ∷ xs)
  unfolding insert
  insert-perm x [] = Perm.rfl
  insert-perm x (y ∷ ys) =
      let rest = insert-perm x ys in
      elim (Bool-cases (le x y)) [
        | inl first ↦ rw first Perm.rfl
        | inr after ↦ rw after (Perm.trans (Perm.cons y rest) (Perm.swap x y ys))
      ]

  -- The result has the same members, as often.
  pub sorted-perm : (xs : List A) → Perm (sorted le xs) xs
  unfolding sorted
  sorted-perm [] = Perm.rfl
  sorted-perm (x ∷ xs) = Perm.trans (insert-perm x (sorted le xs)) (Perm.cons x (sorted-perm xs))

  insert-length : (x : A) (xs : List A) → length (insert le x xs) ≡ suc (length xs)
  unfolding insert
  insert-length x [] = refl
  insert-length x (y ∷ ys) = ground (arith, insert-length x ys)

  pub length-sorted : (xs : List A) → length (sorted le xs) ≡ length xs
  unfolding sorted
  length-sorted [] = refl
  length-sorted (x ∷ xs) = insert-length x (sorted le xs) ∙ ap suc (length-sorted xs)

  module _ (test : A → Bool) where
    insert-keep :
        (x : A) (xs : List A)
        → Perm (keep test (insert le x xs)) (if test x then x ∷ keep test xs else keep test xs)
    unfolding insert
    insert-keep x [] = Perm.rfl
    insert-keep x (y ∷ ys) =
        let rest = insert-keep x ys in
        elim (Bool-cases (le x y)) [
          | inl first ↦ rw first Perm.rfl
          | inr after ↦ rw after (elim (Bool-cases (test x)) [
            | inl kept ↦ elim (Bool-cases (test y)) [
              | inl kept' ↦
                  rw (kept, kept')
                    (Perm.trans (Perm.cons y (rw kept at rest)) (Perm.swap x y (keep test ys)))
              | inr dropped ↦ rw (kept, dropped) (rw kept at rest)
            ]
            | inr dropped ↦ elim (Bool-cases (test y)) [
              | inl kept' ↦ rw (dropped, kept') (Perm.cons y (rw dropped at rest))
              | inr dropped' ↦ rw (dropped, dropped') (rw dropped at rest)
            ]
          ])
        ]

    cons-keep :
        (x : A) {xs ys : List A}
        → Perm xs ys
        → Perm (if test x then x ∷ xs else xs) (if test x then x ∷ ys else ys)
    cons-keep x p = elim (Bool-cases (test x)) [
      | inl kept ↦ rw kept (Perm.cons x p)
      | inr dropped ↦ rw dropped p
    ]

    -- The members that pass a test are the same before and after.
    pub keep-sorted-perm : (xs : List A) → Perm (keep test (sorted le xs)) (keep test xs)
    unfolding sorted
    keep-sorted-perm [] = Perm.rfl
    keep-sorted-perm (x ∷ xs) =
        Perm.trans (insert-keep x (sorted le xs)) (cons-keep x (keep-sorted-perm xs))

    pub keep-All : (P : A → Type 0) (xs : List A) → All P xs → All P (keep test xs)
    keep-All P [] h = tt
    keep-All P (x ∷ xs) h =
        let rest = keep-All P xs h.1 in
        elim (Bool-cases (test x)) [
          | inl kept ↦ rw kept (h.0, rest)
          | inr dropped ↦ rw dropped rest
        ]

    pub keep-IsSorted : (xs : List A) → IsSorted le xs → IsSorted le (keep test xs)
    keep-IsSorted [] h = tt
    keep-IsSorted (x ∷ xs) h =
        let rest = keep-IsSorted xs h.1 in
        elim (Bool-cases (test x)) [
          | inl kept ↦ rw kept (keep-All (λ y. le x y ≡ true) xs h.0, rest)
          | inr dropped ↦ rw dropped rest
        ]

-- Each value stands before those that it is related to.
abbrev pub AreOrdered {ℓ} : {A : Type ℓ} → (A → A → Type 0) → List A → Type 0
AreOrdered R [] = Unit
AreOrdered R (x ∷ xs) = All (R x) xs × AreOrdered R xs

module _ {ℓ} {A : Type ℓ} (le : A → A → Bool) (R : A → A → Type 0)
    (means : (a b : A) → le a b ≡ true → R a b) where
  All-meaning : (a : A) (xs : List A) → All (λ y. le a y ≡ true) xs → All (R a) xs
  All-meaning a [] h = tt
  All-meaning a (x ∷ xs) h = (means a x h.0, All-meaning a xs h.1)

  pub IsSorted-AreOrdered : (xs : List A) → IsSorted le xs → AreOrdered R xs
  IsSorted-AreOrdered [] h = tt
  IsSorted-AreOrdered (x ∷ xs) h = (All-meaning x xs h.0, IsSorted-AreOrdered xs h.1)
