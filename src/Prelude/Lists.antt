-- ===== src/Prelude/Lists.antt =====
-- Lists measured by native numbers, Boolean quantifiers, and a filter by a Boolean test.
use Prim.Native.Nat.{ℕ, suc, ◌+◌, ◌≤◌, ◌<◌}
use mathlib.Core.Path.{◌≡◌, refl, ap, sym, subst, ◌∙◌}
use mathlib.Core.Bool.{Bool, true, false, ◌||◌}
use mathlib.Core.List.Memᴰ
use mathlib.Core.List.{List, [], ◌∷◌, ◌++◌, Memᴰ}
use mathlib.Core.Logic.{inl, inr}
use native.Mathlib.Omega.{arith}
use zensu_monitoring_agent.Prelude.Tests.{if◌then◌else◌, Bool-cases}

module _ {ℓ} {A : Type ℓ} where
  abbrev pub length : List A → ℕ
  length [] = 0
  length (x ∷ xs) = suc (length xs)

  abbrev pub any : (A → Bool) → List A → Bool
  any p [] = false
  any p (x ∷ xs) = p x || any p xs

  abbrev pub filter : (A → Bool) → List A → List A
  filter p [] = []
  filter p (x ∷ xs) = if p x then x ∷ filter p xs else filter p xs

  pub length-append : (xs ys : List A) → length (xs ++ ys) ≡ length xs + length ys
  length-append [] ys = omega arith
  length-append (x ∷ xs) ys = omega (arith, length-append xs ys)

  pub length_of_mem : {x : A} (xs : List A) → Memᴰ x xs → 0 < length xs
  length_of_mem [] m = elim m [ ]
  length_of_mem (y ∷ xs) m = omega arith

  pub length-filter-le : (p : A → Bool) (xs : List A) → length (filter p xs) ≤ length xs
  length-filter-le p [] = omega arith
  length-filter-le p (x ∷ xs) = ground (arith, length-filter-le p xs)

  pub any_of_mem : (p : A → Bool) {x : A} (xs : List A) → Memᴰ x xs → p x ≡ true → any p xs ≡ true
  any_of_mem p [] m h = elim m [ ]
  any_of_mem p (y ∷ xs) (Memᴰ.head e) h = ground (arith, ap p e)
  any_of_mem p (y ∷ xs) (Memᴰ.tail m) h = ground (arith, any_of_mem p xs m h)

  pub mem_of_any :
      (p : A → Bool) (xs : List A) → any p xs ≡ true → (x : A) × Memᴰ x xs × (p x ≡ true)
  mem_of_any p [] h = cc
  mem_of_any p (x ∷ xs) h = elim (Bool-cases (p x)) [
    | inl e ↦ (x, Memᴰ.head refl, e)
    | inr e ↦ let (y, m, q) = mem_of_any p xs (ground arith) in (y, Memᴰ.tail m, q)
  ]

  pub mem-filter :
      (p : A → Bool) {x : A} (xs : List A) → Memᴰ x xs → p x ≡ true → Memᴰ x (filter p xs)
  mem-filter p [] m h = elim m [ ]
  mem-filter p (y ∷ xs) (Memᴰ.head e) h = rw (sym (ap p e) ∙ h) (Memᴰ.head e)
  mem-filter p (y ∷ xs) (Memᴰ.tail m) h = elim (Bool-cases (p y)) [
    | inl e ↦ rw e (Memᴰ.tail (mem-filter p xs m h))
    | inr e ↦ rw e (mem-filter p xs m h)
  ]

  pub filter-mem :
      (p : A → Bool) {x : A} (xs : List A) → Memᴰ x (filter p xs) → Memᴰ x xs × (p x ≡ true)
  filter-mem p [] m = elim m [ ]
  filter-mem p {x} (y ∷ xs) m = elim (Bool-cases (p y)) [
    | inl e ↦ elim (Memᴰ.cases_cons (rw e at m)) [
      | inl same ↦ (Memᴰ.head same, ap p same ∙ e)
      | inr k ↦ let (l, q) = filter-mem p xs k in (Memᴰ.tail l, q)
    ]
    | inr e ↦ let (k, q) = filter-mem p xs (rw e at m) in (Memᴰ.tail k, q)
  ]

module _ {ℓ} {A : Type ℓ} {p q : A → Bool} where
  pub any_congr : ((x : A) → p x ≡ q x) → (xs : List A) → any p xs ≡ any q xs
  any_congr h [] = refl
  any_congr h (x ∷ xs) = rw (h x, any_congr h xs)

  pub filter_congr : ((x : A) → p x ≡ q x) → (xs : List A) → filter p xs ≡ filter q xs
  filter_congr h [] = refl
  filter_congr h (x ∷ xs) = rw (h x, filter_congr h xs)

pub any-false {ℓ} :
    {A : Type ℓ} {p : A → Bool} → ((x : A) → p x ≡ false) → (xs : List A) → any p xs ≡ false
any-false h [] = refl
any-false h (x ∷ xs) = rw (h x, any-false h xs)

module _ {ℓ κ} {A : Type ℓ} (P : A → Type κ) where
  abbrev pub All : List A → Type κ
  All [] = Unit
  All (x ∷ xs) = P x × All xs

  pub All-append : (xs ys : List A) → All xs → All ys → All (xs ++ ys)
  All-append [] ys _ hy = hy
  All-append (x ∷ xs) ys (px, hx) hy = (px, All-append xs ys hx hy)

pub All_at {ℓ κ} : {A : Type ℓ} (P : A → Type κ) {x : A} (xs : List A) → All P xs → Memᴰ x xs → P x
All_at P [] h m = elim m [ ]
All_at P (y ∷ ys) h m = elim (Memᴰ.cases_cons m) [
  | inl same ↦ subst P (sym same) h.0
  | inr rest ↦ All_at P ys h.1 rest
]
