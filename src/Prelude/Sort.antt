-- ===== src/Prelude/Sort.antt =====
-- `sort.Strings`: the byte-wise lexicographic order, and sorting by insertion. Of a list without
-- repetitions the result is the one strictly increasing list with the same members.
use mathlib.Core.Path.{◌≡◌, refl, sym, ap₂}
use mathlib.Core.Bool.{Bool, true, false}
use mathlib.Core.Logic.{inl, inr}
use mathlib.Core.List.{List, [], ◌∷◌, Memᴰ}
use mathlib.Core.List.Memᴰ
use native.Mathlib.Omega.{arith}
use zensu_monitoring_agent.Prelude.Tests.{ltb, if◌then◌else◌, Bool-cases}
use zensu_monitoring_agent.Prelude.Lists.{All, All_at}
use zensu_monitoring_agent.Prelude.Text.{Str, eqb}

unfoldable pub str_ltb : Str → Str → Bool
str_ltb [] [] = false
str_ltb [] (b ∷ t) = true
str_ltb (a ∷ s) [] = false
str_ltb (a ∷ s) (b ∷ t) = if ltb a b then true else if ltb b a then false else str_ltb s t

unfoldable pub insert : Str → List Str → List Str
insert x [] = x ∷ []
insert x (y ∷ ys) = if str_ltb y x then y ∷ insert x ys else x ∷ y ∷ ys

unfoldable pub sort : List Str → List Str
unfolding insert str_ltb
sort [] = []
sort (x ∷ xs) = insert x (sort xs)

str_ltb_irrefl : (s : Str) → str_ltb s s ≡ false
unfolding str_ltb
str_ltb_irrefl [] = refl
str_ltb_irrefl (a ∷ s) = ground (arith, str_ltb_irrefl s)

str_ltb_trans : (s t u : Str) → str_ltb s t ≡ true → str_ltb t u ≡ true → str_ltb s u ≡ true
unfolding str_ltb
str_ltb_trans [] [] u h k = cc
str_ltb_trans [] (b ∷ t) [] h k = cc
str_ltb_trans [] (b ∷ t) (c ∷ u) h k = refl
str_ltb_trans (a ∷ s) [] u h k = cc
str_ltb_trans (a ∷ s) (b ∷ t) [] h k = cc
str_ltb_trans (a ∷ s) (b ∷ t) (c ∷ u) h k = ground (arith, str_ltb_trans s t u)

str_ltb_total : (s t : Str) → str_ltb s t ≡ false → eqb t s ≡ false → str_ltb t s ≡ true
unfolding str_ltb eqb
str_ltb_total [] [] h k = cc
str_ltb_total [] (b ∷ t) h k = cc
str_ltb_total (a ∷ s) [] h k = refl
str_ltb_total (a ∷ s) (b ∷ t) h k = ground (arith, str_ltb_total s t)

-- Each member lies strictly below all that follow it.
abbrev pub IsStrict : List Str → Type 0
IsStrict [] = Unit
IsStrict (x ∷ xs) = All (λ y. str_ltb x y ≡ true) xs × IsStrict xs

abbrev pub Distinct : List Str → Type 0
Distinct [] = Unit
Distinct (x ∷ xs) = All (λ y. eqb x y ≡ false) xs × Distinct xs

All-insert : (P : Str → Type 0) (x : Str) (ys : List Str) → P x → All P ys → All P (insert x ys)
unfolding insert
All-insert P x [] p h = (p, tt)
All-insert P x (y ∷ ys) p h = elim (Bool-cases (str_ltb y x)) [
  | inl e ↦ rw e (h.0, All-insert P x ys p h.1)
  | inr e ↦ rw e (p, h)
]

pub All-sort : (P : Str → Type 0) (xs : List Str) → All P xs → All P (sort xs)
unfolding sort
All-sort P [] h = tt
All-sort P (x ∷ xs) h = All-insert P x (sort xs) h.0 (All-sort P xs h.1)

below-All :
    (x y : Str) (ys : List Str)
    → str_ltb x y ≡ true
    → All (λ z. str_ltb y z ≡ true) ys
    → All (λ z. str_ltb x z ≡ true) ys
below-All x y [] h k = tt
below-All x y (z ∷ ys) h k = (str_ltb_trans x y z h k.0, below-All x y ys h k.1)

insert-IsStrict :
    (x : Str) (ys : List Str) → IsStrict ys → All (λ y. eqb x y ≡ false) ys → IsStrict (insert x ys)
unfolding insert
insert-IsStrict x [] s d = (tt, tt)
insert-IsStrict x (y ∷ ys) s d = elim (Bool-cases (str_ltb y x)) [
  | inl e ↦ rw e (All-insert _ x ys e s.0, insert-IsStrict x ys s.1 d.1)
  | inr e ↦ let below = str_ltb_total y x e d.0 in rw e ((below, below-All x y ys below s.0), s)
]

pub sort-IsStrict : (xs : List Str) → Distinct xs → IsStrict (sort xs)
unfolding sort
sort-IsStrict [] d = tt
sort-IsStrict (x ∷ xs) d = insert-IsStrict x (sort xs) (sort-IsStrict xs d.1) (All-sort _ xs d.0)

mem-insert : {k : Str} (x : Str) (ys : List Str) → Memᴰ k (x ∷ ys) → Memᴰ k (insert x ys)
unfolding insert
mem-insert x [] m = m
mem-insert x (y ∷ ys) m = elim (Bool-cases (str_ltb y x)) [
  | inl e ↦ rw e elim (Memᴰ.cases_cons m) [
    | inl same ↦ Memᴰ.tail (mem-insert x ys (Memᴰ.head same))
    | inr rest ↦ elim (Memᴰ.cases_cons rest) [
      | inl here ↦ Memᴰ.head here
      | inr later ↦ Memᴰ.tail (mem-insert x ys (Memᴰ.tail later))
    ]
  ]
  | inr e ↦ rw e m
]

insert-mem : {k : Str} (x : Str) (ys : List Str) → Memᴰ k (insert x ys) → Memᴰ k (x ∷ ys)
unfolding insert
insert-mem x [] m = m
insert-mem x (y ∷ ys) m = elim (Bool-cases (str_ltb y x)) [
  | inl e ↦ elim (Memᴰ.cases_cons (rw e at m)) [
    | inl here ↦ Memᴰ.tail (Memᴰ.head here)
    | inr later ↦ elim (Memᴰ.cases_cons (insert-mem x ys later)) [
      | inl same ↦ Memᴰ.head same
      | inr rest ↦ Memᴰ.tail (Memᴰ.tail rest)
    ]
  ]
  | inr e ↦ rw e at m
]

pub mem-sort : {k : Str} (xs : List Str) → Memᴰ k xs → Memᴰ k (sort xs)
unfolding sort
mem-sort [] m = m
mem-sort (x ∷ xs) m = mem-insert x (sort xs) (elim (Memᴰ.cases_cons m) [
  | inl same ↦ Memᴰ.head same
  | inr rest ↦ Memᴰ.tail (mem-sort xs rest)
])

pub sort-mem : {k : Str} (xs : List Str) → Memᴰ k (sort xs) → Memᴰ k xs
unfolding sort
sort-mem [] m = m
sort-mem (x ∷ xs) m = elim (Memᴰ.cases_cons (insert-mem x (sort xs) m)) [
  | inl same ↦ Memᴰ.head same
  | inr rest ↦ Memᴰ.tail (sort-mem xs rest)
]

strict_heads :
    (x y : Str) (xs ys : List Str)
    → IsStrict (x ∷ xs)
    → IsStrict (y ∷ ys)
    → Memᴰ x (y ∷ ys)
    → Memᴰ y (x ∷ xs)
    → x ≡ y
strict_heads x y xs ys s t m n = elim (Memᴰ.cases_cons m) [
  | inl same ↦ same
  | inr later ↦ elim (Memᴰ.cases_cons n) [
    | inl same ↦ sym same
    | inr behind ↦
        cc (str_ltb_irrefl x, str_ltb_trans x y x (All_at _ xs s.0 behind) (All_at _ ys t.0 later))
  ]
]

strict_tail :
    (x y : Str) (xs ys : List Str)
    → IsStrict (x ∷ xs)
    → x ≡ y
    → ((k : Str) → Memᴰ k (x ∷ xs) → Memᴰ k (y ∷ ys))
    → (k : Str) → Memᴰ k xs
    → Memᴰ k ys
strict_tail x y xs ys s e sub k m = elim (Memᴰ.cases_cons (sub k (Memᴰ.tail m))) [
  | inl same ↦ cc (str_ltb_irrefl x, All_at (λ z. str_ltb x z ≡ true) xs s.0 m, same, e)
  | inr rest ↦ rest
]

-- Strictly increasing lists with the same members are equal.
pub IsStrict-ext :
    (xs ys : List Str)
    → IsStrict xs
    → IsStrict ys
    → ((k : Str) → Memᴰ k xs → Memᴰ k ys)
    → ((k : Str) → Memᴰ k ys → Memᴰ k xs)
    → xs ≡ ys
IsStrict-ext [] [] s t sub sup = refl
IsStrict-ext [] (y ∷ ys) s t sub sup = absurd (Memᴰ.not-nil (sup y (Memᴰ.head refl)))
IsStrict-ext (x ∷ xs) [] s t sub sup = absurd (Memᴰ.not-nil (sub x (Memᴰ.head refl)))
IsStrict-ext (x ∷ xs) (y ∷ ys) s t sub sup =
    let e = strict_heads x y xs ys s t (sub x (Memᴰ.head refl)) (sup y (Memᴰ.head refl)) in
    ap₂ ◌∷◌ e (
      IsStrict-ext xs ys s.1 t.1 (strict_tail x y xs ys s e sub)
        (strict_tail y x ys xs t (sym e) sup))
