-- ===== src/GlobalIdentity/Rows.antt =====
-- internal/persistence/global_identity.go: what holds of every row of a table, through the
-- statements that change it.
use tinkercloud.Prelude.{
  ◌≡◌, refl, Bool, true, false, some, [], ◌∷◌, Text, text_eq, arith, All, if_cases, text_eq_iff,
}
use tinkercloud.Prelude.Map.{Map, lookup, insert, has_key, lookup-insert}
use tinkercloud.GlobalIdentity.Tables.{SessionRow, update_rows, find_row, in_family}

module _ {V : Type 0} where
  abbrev pub AllRows : (V → Bool) → Map V → Type 0
  AllRows p m = All (λ e. p e.1 ≡ true) m

  pub update_rows-AllRows :
      (p q : V → Bool) (f : V → V) (m : Map V)
      → ((v : V) → p v ≡ true → q (f v) ≡ true)
      → AllRows p m
      → AllRows q (update_rows f m)
  unfolding update_rows
  update_rows-AllRows p q f [] h a = tt
  update_rows-AllRows p q f ((k, v) ∷ m) h a = (h v a.0, update_rows-AllRows p q f m h a.1)

  pub AllRows-weaken :
      (p q : V → Bool) (m : Map V) → ((v : V) → p v ≡ true → q v ≡ true) → AllRows p m → AllRows q m
  AllRows-weaken p q [] h a = tt
  AllRows-weaken p q ((k, v) ∷ m) h a = (h v a.0, AllRows-weaken p q m h a.1)

  pub insert-AllRows :
      (p : V → Bool) (k : Text) (v : V) (m : Map V)
      → p v ≡ true
      → AllRows p m
      → AllRows p (insert k v m)
  unfolding insert
  insert-AllRows p k v [] h a = (h, tt)
  insert-AllRows p k v ((j, w) ∷ m) h a =
      if_cases (AllRows p) (text_eq j k) (λ _. (h, a.1)) (λ _. (a.0, insert-AllRows p k v m h a.1))

  pub lookup-AllRows :
      (p : V → Bool) (k : Text) (v : V) (m : Map V) → AllRows p m → lookup k m ≡ some v → p v ≡ true
  unfolding lookup
  lookup-AllRows p k v [] a h = absurd (ground (arith, h))
  lookup-AllRows p k v ((j, w) ∷ m) a h = ground (arith, h, a.0, lookup-AllRows p k v m a.1)

  pub find_row-AllRows :
      (p q : V → Bool) (v : V) (m : Map V)
      → AllRows p m
      → find_row q m ≡ some v
      → (p v ≡ true) × (q v ≡ true)
  unfolding find_row
  find_row-AllRows p q v [] a h = absurd (ground (arith, h))
  find_row-AllRows p q v ((j, w) ∷ m) a h = ground (arith, h, a.0, find_row-AllRows p q v m a.1)

pub in_family-update_rows :
    (fam id : Text) (f : SessionRow → SessionRow) (m : Map SessionRow)
    → ((s : SessionRow) → (f s).family ≡ s.family)
    → in_family fam (update_rows f m) id ≡ in_family fam m id
unfolding in_family lookup update_rows
in_family-update_rows fam id f [] h = refl
in_family-update_rows fam id f ((k, s) ∷ m) h =
    ground (arith, h s, in_family-update_rows fam id f m h)

pub in_family-insert :
    (fam id k : Text) (s : SessionRow) (m : Map SessionRow)
    → text_eq s.family fam ≡ false
    → has_key k m ≡ false
    → in_family fam (insert k s m) id ≡ in_family fam m id
unfolding in_family has_key
in_family-insert fam id k s m h n = ground (arith, h, n, lookup-insert k id s m, text_eq_iff k id)
