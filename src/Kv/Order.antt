-- ===== src/Kv/Order.antt =====
-- internal/kv/kv.go: the order of keys, as `sort.Strings` makes it.
use tinkercloud.Prelude.{
  ◌≡◌, refl, true, false, List, [], ◌∷◌, Text, text_eq, filter, All, if_cases, if◌then◌else◌, arith,
}
use tinkercloud.Kv.Store.{text_lt, sort_insert, sort_texts}

pub text_lt_irrefl : (a : Text) → text_lt a a ≡ false
unfolding text_lt
text_lt_irrefl [] = refl
text_lt_irrefl (x ∷ a) = ground (arith, text_lt_irrefl a)

pub text_lt_trans : (a b c : Text) → text_lt a b ≡ true → text_lt b c ≡ true → text_lt a c ≡ true
unfolding text_lt
text_lt_trans a [] c h k = lt_nil a h
  where
    lt_nil : (a : Text) → text_lt a [] ≡ true → text_lt a c ≡ true
    lt_nil [] h = cc
    lt_nil (x ∷ a) h = cc
text_lt_trans a (y ∷ b) [] h k = cc
text_lt_trans [] (y ∷ b) (z ∷ c) h k = refl
text_lt_trans (x ∷ a) (y ∷ b) (z ∷ c) h k = ground (arith, text_lt_trans a b c)

pub text_lt_total : (a b : Text) → text_lt a b ≡ false → text_eq a b ≡ false → text_lt b a ≡ true
unfolding text_lt text_eq
text_lt_total [] [] h k = cc
text_lt_total [] (y ∷ b) h k = cc
text_lt_total (x ∷ a) [] h k = refl
text_lt_total (x ∷ a) (y ∷ b) h k = ground (arith, text_lt_total a b)

-- All of the list come after the key.
abbrev pub Above : Text → List Text → Type 0
Above c ks = All (λ k. text_lt c k ≡ true) ks

-- Each key comes after those before it.
abbrev pub Ascending : List Text → Type 0
Ascending [] = Unit
Ascending (k ∷ ks) = Above k ks × Ascending ks

abbrev pub Apart : Text → List Text → Type 0
Apart c ks = All (λ k. text_eq c k ≡ false) ks

Above-trans : (a b : Text) (ks : List Text) → text_lt a b ≡ true → Above b ks → Above a ks
Above-trans a b [] h k = tt
Above-trans a b (c ∷ ks) h k = (text_lt_trans a b c h k.0, Above-trans a b ks h k.1)

Above-sort_insert :
    (a k : Text) (ks : List Text) → text_lt a k ≡ true → Above a ks → Above a (sort_insert k ks)
unfolding sort_insert
Above-sort_insert a k [] h b = (h, tt)
Above-sort_insert a k (j ∷ js) h b =
    if_cases (Above a) (text_lt k j) (λ _. (h, b)) (λ _. (b.0, Above-sort_insert a k js h b.1))

sort_insert-Ascending :
    (k : Text) (ks : List Text) → Apart k ks → Ascending ks → Ascending (sort_insert k ks)
unfolding sort_insert
sort_insert-Ascending k [] d a = (tt, tt)
sort_insert-Ascending k (j ∷ js) d a =
    if_cases Ascending (text_lt k j) (λ h. ((h, Above-trans k j js h a.0), a))
      (λ h. (
        Above-sort_insert j k js (text_lt_total k j h d.0) a.0,
        sort_insert-Ascending k js d.1 a.1,
      ))

Apart-sort_insert :
    (c k : Text) (ks : List Text) → text_eq c k ≡ false → Apart c ks → Apart c (sort_insert k ks)
unfolding sort_insert
Apart-sort_insert c k [] h d = (h, tt)
Apart-sort_insert c k (j ∷ js) h d =
    if_cases (Apart c) (text_lt k j) (λ _. (h, d)) (λ _. (d.0, Apart-sort_insert c k js h d.1))

abbrev pub AllApart : List Text → Type 0
AllApart [] = Unit
AllApart (k ∷ ks) = Apart k ks × AllApart ks

Apart-sort_texts : (c : Text) (ks : List Text) → Apart c ks → Apart c (sort_texts ks)
unfolding sort_texts
Apart-sort_texts c [] d = tt
Apart-sort_texts c (k ∷ ks) d =
    Apart-sort_insert c k (sort_texts ks) d.0 (Apart-sort_texts c ks d.1)

pub sort_texts-Ascending : (ks : List Text) → AllApart ks → Ascending (sort_texts ks)
unfolding sort_texts
sort_texts-Ascending [] d = tt
sort_texts-Ascending (k ∷ ks) d =
    sort_insert-Ascending k (sort_texts ks) (Apart-sort_texts k ks d.0)
      (sort_texts-Ascending ks d.1)

filter-sort_insert :
    (c k : Text) (ks : List Text)
    → filter (text_lt c) (sort_insert k ks)
      ≡ (if text_lt c k then sort_insert k (filter (text_lt c) ks) else filter (text_lt c) ks)
unfolding filter sort_insert
filter-sort_insert c k [] = refl
filter-sort_insert c k (j ∷ js) = ground (arith, filter-sort_insert c k js, text_lt_trans c k j)

pub filter-sort_texts :
    (c : Text) (ks : List Text)
    → filter (text_lt c) (sort_texts ks) ≡ sort_texts (filter (text_lt c) ks)
unfolding filter sort_texts
filter-sort_texts c [] = refl
filter-sort_texts c (k ∷ ks) =
    ground (arith, filter-sort_insert c k (sort_texts ks), filter-sort_texts c ks)
