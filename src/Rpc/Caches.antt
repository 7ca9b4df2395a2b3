-- ===== src/Rpc/Caches.antt =====
-- The maps that `RpcStorage` of crates/pevm/src/storage/rpc.rs keeps.

use mathlib.Core.Option.{some-injective}
use pevm.Base.{
  ℕ, ◌≡◌, ◌≢◌, sym, ap, ◌∙◌, subst, some, List, [], ◌∷◌, arith, Bool-cases, inl, inr, ◌==◌, ==_iff,
}
use pevm.Storage.{lookup}
use pevm.Rpc.{insert}

module _ {ℓ} {V : Type ℓ} where
  pub lookup-insert : (m : List (ℕ × V)) (k : ℕ) (v : V) → lookup (insert k v m) k ≡ some v
  unfolding insert
  lookup-insert [] k v = ground arith
  lookup-insert ((j, w) ∷ m) k v = ground (arith, lookup-insert m k v)

  pub lookup-insert_other :
      (m : List (ℕ × V)) (k j : ℕ) (v : V) → k ≢ j → lookup (insert k v m) j ≡ lookup m j
  unfolding insert
  lookup-insert_other [] k j v h = ground arith
  lookup-insert_other ((i, w) ∷ m) k j v h = ground (arith, lookup-insert_other m k j v h)

  pub lookup-insert_kept :
      (m : List (ℕ × V)) (k j : ℕ) (v w : V)
      → lookup m j ≡ some w
      → (x : V) × (lookup (insert k v m) j ≡ some x)
  lookup-insert_kept m k j v w e = elim (Bool-cases (k == j)) [
    | inl q ↦ (v, ap (lookup (insert k v m)) (sym ((==_iff k j).0 q)) ∙ lookup-insert m k v)
    | inr q ↦ (w, lookup-insert_other m k j v (λ s. ground (arith, q, s)) ∙ e)
  ]

  -- A property of all values that are kept holds of a map with one more that has it.
  pub insert-all {κ} :
      (P : ℕ → V → Type κ) (m : List (ℕ × V)) (k : ℕ) (v : V)
      → P k v
      → ((j : ℕ) (w : V) → lookup m j ≡ some w → P j w)
      → (j : ℕ) (w : V) → lookup (insert k v m) j ≡ some w
      → P j w
  insert-all P m k v p h j w e = elim (Bool-cases (k == j)) [
    | inl q ↦
        let same : k ≡ j = (==_iff k j).0 q in
        let value : v ≡ w =
          some-injective v w (sym (lookup-insert m k v) ∙ ap (lookup (insert k v m)) same ∙ e) in
        subst (λ x. P x w) same (subst (P k) value p)
    | inr q ↦ h j w (sym (lookup-insert_other m k j v (λ s. ground (arith, q, s))) ∙ e)
  ]
