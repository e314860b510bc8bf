-- ===== src/Prelude/Map.antt =====
-- Go's `map[string]V` as an association list: the zero map is [], a write replaces, and the
-- length is the number of keys as long as no key stands twice (`IsDistinct`).
use tinkercloud.Prelude.Tests.{if◌then◌else◌}
use tinkercloud.Prelude.Lists.{length}
use tinkercloud.Prelude.Bytes.{Text, text_eq, text_eq_iff, text_eq_refl}
use Prim.Native.Nat.{suc, ◌≤◌}
use mathlib.Core.Path.{◌≡◌, refl}
use mathlib.Core.Bool.{Bool, true, false}
use mathlib.Core.Option.{Option, none, some}
use mathlib.Core.List.{List, [], ◌∷◌}
use native.Mathlib.Omega.{arith}

abbrev pub Map {ℓ} : Type ℓ → Type ℓ
Map V = List (Text × V)

module _ {ℓ} {V : Type ℓ} where
  unfoldable pub lookup : Text → Map V → Option V
  lookup k [] = none
  lookup k ((j, v) ∷ m) = if text_eq j k then some v else lookup k m

  unfoldable pub insert : Text → V → Map V → Map V
  insert k v [] = (k, v) ∷ []
  insert k v ((j, w) ∷ m) = if text_eq j k then (k, v) ∷ m else (j, w) ∷ insert k v m

  unfoldable pub delete : Text → Map V → Map V
  delete k [] = []
  delete k ((j, v) ∷ m) = let rest = delete k m in if text_eq j k then rest else (j, v) ∷ rest

  abbrev pub is_some : Option V → Bool
  is_some none = false
  is_some (some v) = true

  unfoldable pub has_key : Text → Map V → Bool
  has_key k m = is_some (lookup k m)

  -- Every entry is passed through `f`, which may drop it.
  unfoldable pub update_all : (Text → V → Option V) → Map V → Map V
  update_all f [] = []
  update_all f ((k, v) ∷ m) =
      let rest = update_all f m in elim (f k v) [ none ↦ rest | some w ↦ (k, w) ∷ rest ]

  abbrev pub bind_entry : (V → Option V) → Option V → Option V
  bind_entry f none = none
  bind_entry f (some v) = f v

  abbrev pub IsDistinct : Map V → Type ℓ
  IsDistinct [] = Unit
  IsDistinct ((k, v) ∷ m) = (lookup k m ≡ none) × IsDistinct m

module _ {ℓ} {V : Type ℓ} where
  pub lookup-insert :
      (k j : Text) (v : V) (m : Map V)
      → lookup j (insert k v m) ≡ (if text_eq k j then some v else lookup j m)
  unfolding lookup insert
  lookup-insert k j v [] = refl
  lookup-insert k j v ((i, w) ∷ m) =
      ground (arith, text_eq_iff k j, text_eq_iff i k, text_eq_iff i j, lookup-insert k j v m)

  pub lookup-insert_self : (k : Text) (v : V) (m : Map V) → lookup k (insert k v m) ≡ some v
  lookup-insert_self k v m = ground (arith, lookup-insert k k v m, text_eq_refl k)

  pub lookup-delete :
      (k j : Text) (m : Map V) → lookup j (delete k m) ≡ (if text_eq k j then none else lookup j m)
  unfolding lookup delete
  lookup-delete k j [] = ground arith
  lookup-delete k j ((i, v) ∷ m) =
      ground (arith, lookup-delete k j m, text_eq_iff i k, text_eq_iff i j, text_eq_iff k j)

  pub insert-IsDistinct : (k : Text) (v : V) (m : Map V) → IsDistinct m → IsDistinct (insert k v m)
  unfolding insert lookup
  insert-IsDistinct k v [] d = (refl, tt)
  insert-IsDistinct k v ((j, w) ∷ m) d =
      ground (
        arith,
        insert-IsDistinct k v m d.1,
        lookup-insert k j v m,
        text_eq_iff k j,
        text_eq_iff j k,
      )

  pub delete-IsDistinct : (k : Text) (m : Map V) → IsDistinct m → IsDistinct (delete k m)
  unfolding delete
  delete-IsDistinct k [] d = tt
  delete-IsDistinct k ((j, w) ∷ m) d =
      ground (arith, delete-IsDistinct k m d.1, lookup-delete k j m)

  lookup-update_all-none :
      (f : Text → V → Option V) (k : Text) (m : Map V)
      → lookup k m ≡ none
      → lookup k (update_all f m) ≡ none
  unfolding lookup update_all
  lookup-update_all-none f k [] h = refl
  lookup-update_all-none f k ((j, v) ∷ m) h = ground (arith, lookup-update_all-none f k m)

  pub lookup-update_all :
      (f : Text → V → Option V) (k : Text) (m : Map V)
      → IsDistinct m
      → lookup k (update_all f m) ≡ bind_entry (f k) (lookup k m)
  unfolding lookup update_all
  lookup-update_all f k [] d = refl
  lookup-update_all f k ((j, v) ∷ m) d =
      ground (arith, lookup-update_all f k m d.1, lookup-update_all-none f j m d.0, text_eq_iff j k)

  pub update_all-IsDistinct :
      (f : Text → V → Option V) (m : Map V) → IsDistinct m → IsDistinct (update_all f m)
  unfolding update_all
  update_all-IsDistinct f [] d = tt
  update_all-IsDistinct f ((k, v) ∷ m) d =
      ground (arith, update_all-IsDistinct f m d.1, lookup-update_all-none f k m d.0)

  pub length-update_all : (f : Text → V → Option V) (m : Map V) → length (update_all f m) ≤ length m
  unfolding update_all
  length-update_all f [] = omega arith
  length-update_all f ((k, v) ∷ m) = ground (arith, length-update_all f m)

  pub length-insert :
      (k : Text) (v : V) (m : Map V)
      → length (insert k v m) ≡ (if has_key k m then length m else suc (length m))
  unfolding insert has_key lookup
  length-insert k v [] = refl
  length-insert k v ((j, w) ∷ m) = ground (arith, length-insert k v m)

  pub has_key-insert :
      (k j : Text) (v : V) (m : Map V)
      → has_key j (insert k v m) ≡ (if text_eq k j then true else has_key j m)
  unfolding has_key
  has_key-insert k j v m = ground (arith, lookup-insert k j v m)
