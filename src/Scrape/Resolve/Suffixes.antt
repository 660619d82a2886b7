-- ===== src/Scrape/Resolve/Suffixes.antt =====
-- What taking suffixes off a name leaves of it.
use zensu_monitoring_agent.Prelude.{
  ◌≤◌, ◌<◌, ◌≡◌, refl, ap, Bool, true, false, not, ◌&&◌, List, [], ◌∷◌, ◌++◌, Str, eqb, eqb_iff,
  eqb_refl, is_empty, length, length-append, All, arith, Bool-cases, inl, inr, ◌⊎◌,
}
use zensu_monitoring_agent.Scrape.BaseNames.{trim_suffix, unit_suffixes, strip}

trim_suffix_cases :
    (s suffix : Str) → (trim_suffix s suffix ≡ s) ⊎ (s ≡ trim_suffix s suffix ++ suffix)
unfolding trim_suffix
trim_suffix_cases [] suffix = inl refl
trim_suffix_cases (c ∷ s) suffix = elim (Bool-cases (eqb (c ∷ s) suffix)) [
  | inl e ↦ inr (rw e ((eqb_iff (c ∷ s) suffix).0 e))
  | inr e ↦ elim (trim_suffix_cases s suffix) [
    | inl same ↦ inl (rw e (ap (λ x. c ∷ x) same))
    | inr cut ↦ inr (rw e (ap (λ x. c ∷ x) cut))
  ]
]

pub trim_suffix-append : (b suffix : Str) → 0 < length suffix → trim_suffix (b ++ suffix) suffix ≡ b
unfolding trim_suffix
trim_suffix-append [] [] h = absurd (omega arith)
trim_suffix-append [] (c ∷ s) h = rw (eqb_refl (c ∷ s))
trim_suffix-append (c ∷ b) suffix h = elim (Bool-cases (eqb (c ∷ b ++ suffix) suffix)) [
  | inl e ↦ absurd (omega (arith, ap length ((eqb_iff _ _).0 e), length-append {0} b suffix))
  | inr e ↦ rw e (ap (λ x. c ∷ x) (trim_suffix-append b suffix h))
]

-- The test of the inner loop: the suffix comes off and leaves something.
abbrev pub hits : Str → Str → Bool
hits name suffix =
    not (eqb (trim_suffix name suffix) name) && not (is_empty (trim_suffix name suffix))

pub hit_cut :
    (name suffix : Str) → hits name suffix ≡ true → name ≡ trim_suffix name suffix ++ suffix
hit_cut name suffix h = elim (trim_suffix_cases name suffix) [
  | inl same ↦ ground (arith, eqb_iff (trim_suffix name suffix) name)
  | inr cut ↦ cut
]

hit-lt :
    (name suffix : Str)
    → 0 < length suffix
    → hits name suffix ≡ true
    → length (trim_suffix name suffix) < length name
hit-lt name suffix pos h =
    omega
      (arith, ap length (hit_cut name suffix h), length-append {0} (trim_suffix name suffix) suffix)

abbrev pub AllLong : List Str → Type 0
AllLong = All (λ s. 0 < length s)

strip-true : (sufs : List Str) (name : Str) → (strip sufs name true).1 ≡ true
unfolding strip
strip-true [] name = refl
strip-true (s ∷ sufs) name = elim (Bool-cases (hits name s)) [
  | inl e ↦ rw (e, strip) (strip-true sufs (trim_suffix name s))
  | inr e ↦ rw (e, strip) (strip-true sufs name)
]

strip-le :
    (sufs : List Str) (name : Str) (b : Bool)
    → AllLong sufs
    → length (strip sufs name b).0 ≤ length name
unfolding strip
strip-le [] name b l = omega arith
strip-le (s ∷ sufs) name b l = elim (Bool-cases (hits name s)) [
  | inl e ↦
      rw (e, strip)
        (omega (arith, strip-le sufs (trim_suffix name s) true l.1, hit-lt name s l.0 e))
  | inr e ↦ rw (e, strip) (strip-le sufs name b l.1)
]

pub strip-lt :
    (sufs : List Str) (name : Str)
    → AllLong sufs
    → (strip sufs name false).1 ≡ true
    → length (strip sufs name false).0 < length name
unfolding strip
strip-lt [] name l h = cc
strip-lt (s ∷ sufs) name l h = elim (Bool-cases (hits name s)) [
  | inl e ↦
      rw (e, strip)
        (omega (arith, strip-le sufs (trim_suffix name s) true l.1, hit-lt name s l.0 e))
  | inr e ↦ rw (e, strip) (strip-lt sufs name l.1 (rw (e, strip) at h))
]

pub strip_unchanged :
    (sufs : List Str) (name : Str)
    → (strip sufs name false).1 ≡ false
    → All (λ s. hits name s ≡ false) sufs × ((strip sufs name false).0 ≡ name)
unfolding strip
strip_unchanged [] name h = (tt, refl)
strip_unchanged (s ∷ sufs) name h = elim (Bool-cases (hits name s)) [
  | inl e ↦ cc (strip-true sufs (trim_suffix name s), (rw (e, strip) at h))
  | inr e ↦
      let (none_hit, same) = strip_unchanged sufs name (rw (e, strip) at h) in
      ((e, none_hit), rw (e, strip) same)
]

pub suffixes_long : AllLong unit_suffixes
suffixes_long = omega arith
