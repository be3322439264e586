-- ===== src/Prelude/Dict.antt =====
-- Python's `dict`, which keeps its keys in the order of insertion: a write to a key that is there
-- replaces the value in its place, a write to a new key goes to the end.
use mathlib.Core.Path.{◌≡◌, refl}
use mathlib.Core.Logic.{inl, inr}
use mathlib.Core.List.{List, [], ◌∷◌}
use mathlib.Core.Option.{Option, none, some}
use mathlib.Core.Bool.{false}
use native.Mathlib.Omega.{arith}
use async_job_processing_pip.Prelude.Tests.{Eq, ◌==◌, beq_refl, if◌then◌else◌, Bool-cases}

abbrev pub Dict {ℓ κ} : Type ℓ → Type κ → Type (ℓ ⊔ κ)
Dict K V = List (K × V)

module _ {ℓ κ} {K : Type ℓ} {V : Type κ} ⦃e : Eq K⦄ where
  -- `d.get(k)`
  unfoldable pub get : K → Dict K V → Option V
  get k [] = none
  get k ((j, v) ∷ d) = if j == k then some v else get k d

  -- `d[k] = v`
  unfoldable pub put : K → V → Dict K V → Dict K V
  put k v [] = (k, v) ∷ []
  put k v ((j, w) ∷ d) = if j == k then (j, v) ∷ d else (j, w) ∷ put k v d

  pub get-put_self : (k : K) (v : V) (d : Dict K V) → get k (put k v d) ≡ some v
  unfolding get put
  get-put_self k v [] = rw (beq_refl k)
  get-put_self k v ((j, w) ∷ d) = elim (Bool-cases (j == k)) [
    | inl same ↦ rw same (rw same refl)
    | inr other ↦ rw other (rw other (get-put_self k v d))
  ]

  pub get-put_ne : (k j : K) (v : V) (d : Dict K V) → (k == j) ≡ false → get j (put k v d) ≡ get j d
  unfolding get put
  get-put_ne k j v [] h = rw h
  get-put_ne k j v ((i, w) ∷ d) h =
      let rest = get-put_ne k j v d h in
      elim (Bool-cases (i == k)) [
        | inl same ↦ rw same (ground (arith, e.beq_iff i k, h))
        | inr other ↦ rw other (ground (arith, rest))
      ]

  -- Reading after a write, with no side condition.
  pub get-put :
      (k j : K) (v : V) (d : Dict K V) → get j (put k v d) ≡ (if k == j then some v else get j d)
  get-put k j v d = elim (Bool-cases (k == j)) [
    | inl same ↦ let at : k ≡ j = (e.beq_iff k j).0 same in rw same (rw (← at) (get-put_self k v d))
    | inr other ↦ rw other (get-put_ne k j v d other)
  ]
