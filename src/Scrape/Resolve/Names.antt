-- ===== src/Scrape/Resolve/Names.antt =====
-- `NormalizeName`, and what its loop leaves of a name.
use zensu_monitoring_agent.Prelude.{
  ℕ, zero, suc, ◌<◌, ◌≡◌, refl, sym, ap, ◌∙◌, Bool, true, false, List, [], ◌∷◌, ◌++◌, Str, eqb,
  eqb_iff, length, length-append, All, All_at, arith, Memᴰ, Bool-cases, inl, inr,
}
use zensu_monitoring_agent.Scrape.BaseNames.{
  trim_suffix, unit_suffixes, strip, normalize_loop, normalize_name,
}
use zensu_monitoring_agent.Scrape.Resolve.Suffixes.{
  trim_suffix-append, hits, hit_cut, suffixes_long, strip-lt, strip_unchanged,
}

-- A name that a whole round of the loop leaves alone.
abbrev IsFixed : Str → Type 0
IsFixed n = (strip unit_suffixes n false).1 ≡ false

normalize_loop-IsFixed : (f : ℕ) (name : Str) → length name < f → IsFixed (normalize_loop f name)
unfolding normalize_loop
normalize_loop-IsFixed zero name h = absurd (omega arith)
normalize_loop-IsFixed (suc f) name h = elim (Bool-cases (strip unit_suffixes name false).1) [
  | inl e ↦ rw e (
      normalize_loop-IsFixed f (strip unit_suffixes name false).0
        (omega (arith, strip-lt unit_suffixes name suffixes_long e)))
  | inr e ↦ rw e (rw (strip_unchanged unit_suffixes name e).1 e)
]

fixed_alone : (f : ℕ) (n : Str) → IsFixed n → normalize_loop (suc f) n ≡ n
unfolding normalize_loop
fixed_alone f n e = rw e (strip_unchanged unit_suffixes n e).1

-- Normalizing a name a second time changes nothing.
pub normalize_name_idempotent :
    (name : Str) → normalize_name (normalize_name name) ≡ normalize_name name
unfolding normalize_name
normalize_name_idempotent name =
    fixed_alone _ _ (normalize_loop-IsFixed (suc (length name)) name (omega arith))

-- `name` is `base` with unit suffixes behind it.
pub data Suffixed (base : Str) : Str → Type 0 where
  here : Suffixed base base
  more :
      {n name : Str}
      → Suffixed base n
      → (suffix : Str) → Memᴰ suffix unit_suffixes
      → name ≡ n ++ suffix
      → Suffixed base name

Suffixed-trans : {a b c : Str} → Suffixed a b → Suffixed b c → Suffixed a c
Suffixed-trans s here = s
Suffixed-trans s (more t suffix m e) = more (Suffixed-trans s t) suffix m e

strip-Suffixed :
    (sufs : List Str) (name : Str) (b : Bool)
    → All (λ s. Memᴰ s unit_suffixes) sufs
    → Suffixed (strip sufs name b).0 name
unfolding strip
strip-Suffixed [] name b l = here
strip-Suffixed (s ∷ sufs) name b l = elim (Bool-cases (hits name s)) [
  | inl e ↦
      rw (e, strip)
        (more (strip-Suffixed sufs (trim_suffix name s) true l.1) s l.0 (hit_cut name s e))
  | inr e ↦ rw (e, strip) (strip-Suffixed sufs name b l.1)
]

listed : All (λ s. Memᴰ s unit_suffixes) unit_suffixes
listed =
    (Memᴰ.head refl, (Memᴰ.tail (Memᴰ.head refl), (Memᴰ.tail (Memᴰ.tail (Memᴰ.head refl)), tt)))

normalize_loop-Suffixed : (f : ℕ) (name : Str) → Suffixed (normalize_loop f name) name
unfolding normalize_loop
normalize_loop-Suffixed zero name = here
normalize_loop-Suffixed (suc f) name =
    let name' = (strip unit_suffixes name false).0 in
    let one = strip-Suffixed unit_suffixes name false listed in
    elim (Bool-cases (strip unit_suffixes name false).1) [
      | inl e ↦ rw e (Suffixed-trans (normalize_loop-Suffixed f name') one)
      | inr e ↦ rw e one
    ]

hits_of_append : (b suffix : Str) → 0 < length suffix → hits (b ++ suffix) suffix ≡ false → b ≡ []
hits_of_append [] suffix pos h = refl
hits_of_append (c ∷ b) suffix pos h = elim (Bool-cases (eqb (c ∷ b) (c ∷ b ++ suffix))) [
  | inl e ↦ absurd (omega (arith, ap length ((eqb_iff _ _).0 e), length-append {0} b suffix))
  | inr e ↦ cc (rw (trim_suffix-append (c ∷ b) suffix pos, e) at h)
]

fixed_suffix : (n b suffix : Str) → IsFixed n → Memᴰ suffix unit_suffixes → n ≡ b ++ suffix → b ≡ []
fixed_suffix n b suffix e m same =
    hits_of_append b suffix (All_at (λ s. 0 < length s) unit_suffixes suffixes_long m) (
      ap (λ x. hits x suffix) (sym same)
      ∙ All_at (λ s. hits n s ≡ false) unit_suffixes (strip_unchanged unit_suffixes n e).0 m)

-- The base of a metric name is the name without some unit suffixes, as many as can come off: behind
-- what is left stands no unit suffix, unless that suffix is all that is left.
pub normalize_name_lem :
    (name : Str)
    → Suffixed (normalize_name name) name
      × ((b suffix : Str) → Memᴰ suffix unit_suffixes → normalize_name name ≡ b ++ suffix → b ≡ [])
unfolding normalize_name
normalize_name_lem name =
    let f = suc (length name) in
    (
      normalize_loop-Suffixed f name,
      λ b suffix.
          fixed_suffix (normalize_loop f name) b suffix
            (normalize_loop-IsFixed f name (omega arith)),
    )
