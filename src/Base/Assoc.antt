-- ===== src/Base/Assoc.antt =====
-- Go maps with number keys, as association lists in which a key stands once.
use overlay_s.Base.Tests.{
  Bool, List, Option, [], arith, false, if◌then◌else◌, none, refl, some, ℕ, ◌==◌, ◌∷◌, ◌≡◌,
}

module _ {ℓ} {V : Type ℓ} where
  -- table[id], with its comma-ok result
  unfoldable pub lookup : ℕ → List (ℕ × V) → Option V
  lookup id [] = none
  lookup id ((other, value) ∷ table) = if other == id then some value else lookup id table

  -- for id, value := range table { if drop(value) { delete(table, id) } }
  unfoldable pub delete_if : (V → Bool) → List (ℕ × V) → List (ℕ × V)
  delete_if gone [] = []
  delete_if gone ((other, value) ∷ table) =
      let rest = delete_if gone table in if gone value then rest else (other, value) ∷ rest

  -- table[id] = value
  unfoldable pub insert : ℕ → V → List (ℕ × V) → List (ℕ × V)
  insert id value [] = (id, value) ∷ []
  insert id value ((other, held) ∷ table) =
      if other == id then (id, value) ∷ table else (other, held) ∷ insert id value table

  pub lookup-insert :
      (id other : ℕ) (value : V) (table : List (ℕ × V))
      → lookup other (insert id value table)
        ≡ (if id == other then some value else lookup other table)
  unfolding lookup insert
  lookup-insert id other value [] = refl
  lookup-insert id other value ((third, held) ∷ table) =
      ground (arith, lookup-insert id other value table)

  -- What a deletion does not take stays, even where keys repeat.
  pub lookup-delete_if :
      (gone : V → Bool) (id : ℕ) (value : V) (table : List (ℕ × V))
      → lookup id table ≡ some value
      → gone value ≡ false
      → lookup id (delete_if gone table) ≡ some value
  unfolding lookup delete_if
  lookup-delete_if gone id value [] h g = cc
  lookup-delete_if gone id value ((other, held) ∷ table) h g =
      ground (arith, lookup-delete_if gone id value table)
