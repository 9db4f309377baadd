-- ===== src/Platform/Dict.antt =====
-- An object or `Map` with string keys: its entries in the order of insertion.
use crownfi_sei_swaps.Prelude.{
  ◌≡◌, refl, false, List, [], ◌∷◌, Option, none, some, arith, if◌then◌else◌,
}
use crownfi_sei_swaps.Text.{Str, ◌==◌}
use crownfi_sei_swaps.Text.Laws.{==_iff, ==_refl}

abbrev pub Dict {ℓ} : Type ℓ → Type ℓ
Dict V = List (Str × V)

module _ {ℓ} {V : Type ℓ} where
  unfoldable pub lookup : Str → Dict V → Option V
  lookup key ((k, v) ∷ entries) = if k == key then some v else lookup key entries
  lookup key [] = none

  -- A known key keeps its place.
  unfoldable pub insert : Str → V → Dict V → Dict V
  insert key value ((k, v) ∷ entries) =
      if k == key then (k, value) ∷ entries else (k, v) ∷ insert key value entries
  insert key value [] = (key, value) ∷ []

  -- `Object.values(m)`
  unfoldable pub values : Dict V → List V
  values [] = []
  values ((j, v) ∷ m) = v ∷ values m

  pub lookup-insert :
      (key other : Str) (value : V) (entries : Dict V)
      → lookup other (insert key value entries)
        ≡ (if key == other then some value else lookup other entries)
  unfolding lookup insert
  lookup-insert key other value ((k, v) ∷ entries) =
      let ih = lookup-insert key other value entries in
      ground (arith, ==_iff key other, ==_iff k other, ==_iff k key, ih)
  lookup-insert key other value [] = refl

  pub lookup-insert_self : (k : Str) (v : V) (m : Dict V) → lookup k (insert k v m) ≡ some v
  lookup-insert_self k v m = simp (lookup-insert, ==_refl)

  pub lookup-insert_ne :
      (k j : Str) (v : V) (m : Dict V) → (k == j) ≡ false → lookup j (insert k v m) ≡ lookup j m
  lookup-insert_ne k j v m h = rw lookup-insert (rw h)
