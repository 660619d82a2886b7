-- ===== src/Redact/White.antt =====
-- White space runes, and what the two halves of `strings.TrimSpace` take off, for internal/redact/redact.go.
use zensu_monitoring_agent.Prelude.{
  ℕ, zero, suc, ◌≤◌, ◌<◌, ◌≡◌, ◌⊎◌, refl, sym, ap, ◌∙◌, true, false, [], ◌∷◌, ◌++◌, append_assoc,
  Str, length, length-append, ◌==◌, inl, inr, Bool-cases, arith,
}
use zensu_monitoring_agent.Redact.{
  drop, reverse, space_1, space_2, space_3, space_head, space_last, trim,
}

-- A string of white space runes.
pub data IsWhite : Str → Type 0 where
  no_rune : IsWhite []
  one_byte : (a : ℕ) (s : Str) → space_1 a ≡ true → IsWhite s → IsWhite (a ∷ s)
  two_bytes : (a b : ℕ) (s : Str) → space_2 a b ≡ true → IsWhite s → IsWhite (a ∷ b ∷ s)
  three_bytes : (a b c : ℕ) (s : Str) → space_3 a b c ≡ true → IsWhite s → IsWhite (a ∷ b ∷ c ∷ s)

pub IsWhite-append : (s t : Str) → IsWhite s → IsWhite t → IsWhite (s ++ t)
IsWhite-append _ t no_rune k = k
IsWhite-append _ t (one_byte a s e h) k = one_byte a (s ++ t) e (IsWhite-append s t h k)
IsWhite-append _ t (two_bytes a b s e h) k = two_bytes a b (s ++ t) e (IsWhite-append s t h k)
IsWhite-append _ t (three_bytes a b c s e h) k =
    three_bytes a b c (s ++ t) e (IsWhite-append s t h k)

pub reverse-onto : (s out : Str) → reverse s out ≡ reverse s [] ++ out
unfolding reverse
reverse-onto [] out = refl
reverse-onto (c ∷ s) out =
    reverse-onto s (c ∷ out)
    ∙ sym (append_assoc (reverse s []) (c ∷ []) out)
    ∙ ap (λ x. x ++ out) (sym (reverse-onto s (c ∷ [])))

pub reverse-append : (s t out : Str) → reverse (s ++ t) out ≡ reverse t (reverse s out)
unfolding reverse
reverse-append [] t out = refl
reverse-append (c ∷ s) t out = reverse-append s t (c ∷ out)

pub reverse_twice : (s out q : Str) → reverse (reverse s out) q ≡ reverse out (s ++ q)
unfolding reverse
reverse_twice [] out q = refl
reverse_twice (c ∷ s) out q = reverse_twice s (c ∷ out) q

-- What `head` finds at the start of a string: nothing, or a chunk that has `P`.
module _ (P : Str → Type 0) (head : Str → ℕ) where
  abbrev pub Finds : Str → Type 0
  Finds s =
      (head s ≡ 0)
      ⊎ ((w : Str) × (t : Str) × (s ≡ w ++ t)
          × P w
          × (drop (head s) s ≡ t)
          × (0 < length w)
          × ((head s == 0) ≡ false))

  -- With enough fuel, `trim` takes chunks off until `head` finds none.
  pub trim_lem :
      P []
      → ((w t : Str) → P w → P t → P (w ++ t))
      → ((s : Str) → Finds s)
      → (f : ℕ) (s : Str) → length s ≤ f
      → (w : Str) × (s ≡ w ++ trim head f s) × P w × (head (trim head f s) ≡ 0)
  unfolding trim
  trim_lem nothing joins finds zero s h = elim (finds s) [
    | inl e ↦ ([], refl, nothing, e)
    | inr (w, t, e, p, rest, some_bytes, found) ↦
        absurd (omega (arith, h, ap length e, length-append w t, some_bytes))
  ]
  trim_lem nothing joins finds (suc f) s h = elim (finds s) [
    | inl e ↦ rw (trim, e) ([], refl, nothing, e)
    | inr (w, t, e, p, rest, some_bytes, found) ↦
        let few : length t ≤ f = omega (arith, h, ap length e, length-append w t, some_bytes) in
        let (v, later, q, clean) = trim_lem nothing joins finds f t few in
        rw (trim, found, rest)
          (
            w ++ v,
            e ∙ ap (λ x. w ++ x) later ∙ sym (append_assoc w v (trim head f t)),
            joins w v p q,
            clean,
          )
  ]

pub head-Finds : (s : Str) → Finds IsWhite space_head s
unfolding space_head drop
head-Finds [] = inl refl
head-Finds (a ∷ []) = elim (Bool-cases (space_1 a)) [
  | inl e ↦ inr (a ∷ [], [], refl, one_byte a [] e no_rune, rw e refl, omega arith, rw e refl)
  | inr n ↦ inl (rw n refl)
]
head-Finds (a ∷ b ∷ []) = elim (Bool-cases (space_1 a)) [
  | inl e ↦ inr (a ∷ [], b ∷ [], refl, one_byte a [] e no_rune, rw e refl, omega arith, rw e refl)
  | inr n ↦ elim (Bool-cases (space_2 a b)) [
    | inl e ↦ inr (
      a ∷ b ∷ [],
      [],
      refl,
      two_bytes a b [] e no_rune,
      rw (n, e) refl,
      omega arith,
      rw (n, e) refl,
    )
    | inr m ↦ inl (rw (n, m) refl)
  ]
]
head-Finds (a ∷ b ∷ c ∷ s) = elim (Bool-cases (space_1 a)) [
  | inl e ↦
      inr (a ∷ [], b ∷ c ∷ s, refl, one_byte a [] e no_rune, rw e refl, omega arith, rw e refl)
  | inr n ↦ elim (Bool-cases (space_2 a b)) [
    | inl e ↦ inr (
      a ∷ b ∷ [],
      c ∷ s,
      refl,
      two_bytes a b [] e no_rune,
      rw (n, e) refl,
      omega arith,
      rw (n, e) refl,
    )
    | inr m ↦ elim (Bool-cases (space_3 a b c)) [
      | inl e ↦ inr (
        a ∷ b ∷ c ∷ [],
        s,
        refl,
        three_bytes a b c [] e no_rune,
        rw (n, m, e) refl,
        omega arith,
        rw (n, m, e) refl,
      )
      | inr k ↦ inl (rw (n, m, k) refl)
    ]
  ]
]

-- A reversed chunk is white.
abbrev pub IsWhiteBack : Str → Type 0
IsWhiteBack w = IsWhite (reverse w [])

pub last-Finds : (s : Str) → Finds IsWhiteBack space_last s
unfolding space_last drop reverse
last-Finds [] = inl refl
last-Finds (a ∷ []) = elim (Bool-cases (space_1 a)) [
  | inl e ↦ inr (a ∷ [], [], refl, one_byte a [] e no_rune, rw e refl, omega arith, rw e refl)
  | inr n ↦ inl (rw n refl)
]
last-Finds (b ∷ a ∷ []) = elim (Bool-cases (space_1 b)) [
  | inl e ↦ inr (b ∷ [], a ∷ [], refl, one_byte b [] e no_rune, rw e refl, omega arith, rw e refl)
  | inr n ↦ elim (Bool-cases (space_2 a b)) [
    | inl e ↦ inr (
      b ∷ a ∷ [],
      [],
      refl,
      two_bytes a b [] e no_rune,
      rw (n, e) refl,
      omega arith,
      rw (n, e) refl,
    )
    | inr m ↦ inl (rw (n, m) refl)
  ]
]
last-Finds (c ∷ b ∷ a ∷ s) = elim (Bool-cases (space_1 c)) [
  | inl e ↦
      inr (c ∷ [], b ∷ a ∷ s, refl, one_byte c [] e no_rune, rw e refl, omega arith, rw e refl)
  | inr n ↦ elim (Bool-cases (space_2 b c)) [
    | inl e ↦ inr (
      c ∷ b ∷ [],
      a ∷ s,
      refl,
      two_bytes b c [] e no_rune,
      rw (n, e) refl,
      omega arith,
      rw (n, e) refl,
    )
    | inr m ↦ elim (Bool-cases (space_3 a b c)) [
      | inl e ↦ inr (
        c ∷ b ∷ a ∷ [],
        s,
        refl,
        three_bytes a b c [] e no_rune,
        rw (n, m, e) refl,
        omega arith,
        rw (n, m, e) refl,
      )
      | inr k ↦ inl (rw (n, m, k) refl)
    ]
  ]
]
