-- ===== src/Prelude/Dict.antt =====
-- Go maps as association lists: `m[k]`, `m[k] = v`, `delete(m, k)`, and `range` in list order.
use mathlib.Core.Path.{◌≡◌, refl}
use mathlib.Core.Logic.{inl, inr}
use mathlib.Core.List.{List, [], ◌∷◌}
use mathlib.Core.Option.{Option, none, some}
use native.Mathlib.Omega.{arith}
use dmsg.Prelude.Tests.{Eq, Bool-cases, if◌then◌else◌}

module _ {ℓ κ} {K : Type ℓ} {V : Type κ} ⦃e : Eq K⦄ where
  unfoldable pub lookup : K → List (K × V) → Option V
  lookup k [] = none
  lookup k ((j, v) ∷ m) = if e.beq j k then some v else lookup k m

  unfoldable pub delete : K → List (K × V) → List (K × V)
  delete k [] = []
  delete k ((j, v) ∷ m) = let rest = delete k m in if e.beq j k then rest else (j, v) ∷ rest

  unfoldable pub insert : K → V → List (K × V) → List (K × V)
  unfolding delete
  insert k v m = (k, v) ∷ delete k m

  pub lookup-delete :
      (k j : K) (m : List (K × V))
      → lookup j (delete k m) ≡ (if e.beq k j then none else lookup j m)
  unfolding lookup delete
  lookup-delete k j [] = ground arith
  lookup-delete k j ((i, v) ∷ m) =
      ground (arith, lookup-delete k j m, e.beq_iff i k, e.beq_iff i j, e.beq_iff k j)

  pub lookup-insert :
      (k j : K) (v : V) (m : List (K × V))
      → lookup j (insert k v m) ≡ (if e.beq k j then some v else lookup j m)
  unfolding lookup insert
  lookup-insert k j v m = ground (arith, lookup-delete k j m)

  pub delete_absent : (k : K) (m : List (K × V)) → lookup k m ≡ none → delete k m ≡ m
  unfolding lookup delete
  delete_absent k [] h = refl
  delete_absent k ((i, v) ∷ m) h = elim (Bool-cases (e.beq i k)) [
    | inl b ↦ absurd (ground (arith, b))
    | inr b ↦ ground (arith, b, e.beq_iff i k, e.beq_iff k i, delete_absent k m (ground (arith, b)))
  ]
