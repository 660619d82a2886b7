-- ===== src/Prelude/Maps.antt =====
-- Go maps with string keys, as association lists: the order of the entries is one of the orders in
-- which Go may iterate. `get` of a missing key is `none`; `put` overwrites in place or adds.
use Prim.Native.Nat.{suc}
use mathlib.Core.Path.{◌≡◌, refl, sym}
use mathlib.Core.Bool.{Bool}
use mathlib.Core.Option.{Option, none, some}
use mathlib.Core.List.{List, [], ◌∷◌, Memᴰ}
use mathlib.Core.List.Memᴰ
use mathlib.Core.Logic.{inl, inr}
use native.Mathlib.Omega.{arith}
use zensu_monitoring_agent.Prelude.Tests.{if◌then◌else◌, is_some, Bool-cases}
use zensu_monitoring_agent.Prelude.Lists.{length}
use zensu_monitoring_agent.Prelude.Text.{Str, eqb, eqb_iff, eqb_ne}

abbrev pub Map {ℓ} : Type ℓ → Type ℓ
Map V = List (Str × V)

module _ {ℓ} {V : Type ℓ} where
  unfoldable pub get : Str → Map V → Option V
  get k [] = none
  get k ((j, v) ∷ m) = if eqb j k then some v else get k m

  unfoldable pub put : Str → V → Map V → Map V
  put k v [] = (k, v) ∷ []
  put k v ((j, w) ∷ m) = if eqb j k then (k, v) ∷ m else (j, w) ∷ put k v m

  abbrev pub has : Str → Map V → Bool
  has k m = is_some (get k m)

  abbrev pub keys : Map V → List Str
  keys [] = []
  keys ((k, v) ∷ m) = k ∷ keys m

  pub get-put :
      (k j : Str) (v : V) (m : Map V) → get j (put k v m) ≡ (if eqb k j then some v else get j m)
  unfolding get put
  get-put k j v [] = refl
  get-put k j v ((i, w) ∷ m) =
      ground (arith, eqb_iff k j, eqb_iff i k, eqb_iff i j, get-put k j v m)

  pub length-put :
      (k : Str) (v : V) (m : Map V)
      → length (put k v m) ≡ (if has k m then length m else suc (length m))
  unfolding get put
  length-put k v [] = refl
  length-put k v ((i, w) ∷ m) = ground (arith, length-put k v m)

  pub mem_of_get : {k : Str} {v : V} (m : Map V) → get k m ≡ some v → Memᴰ k (keys m)
  unfolding get
  mem_of_get [] e = cc
  mem_of_get {k} ((j, w) ∷ m) e = elim (Bool-cases (eqb j k)) [
    | inl same ↦ Memᴰ.head (sym ((eqb_iff j k).0 same))
    | inr other ↦ Memᴰ.tail (mem_of_get m (rw other at e))
  ]

  pub get_of_mem : {k : Str} (m : Map V) → Memᴰ k (keys m) → (v : V) × (get k m ≡ some v)
  unfolding get
  get_of_mem [] h = elim h [ ]
  get_of_mem {k} ((j, w) ∷ m) h = elim (Bool-cases (eqb j k)) [
    | inl same ↦ (w, rw same)
    | inr other ↦ elim (Memᴰ.cases_cons h) [
      | inl e ↦ absurd (eqb_ne j k other (sym e))
      | inr later ↦ let (v, found) = get_of_mem m later in (v, rw other found)
    ]
  ]
