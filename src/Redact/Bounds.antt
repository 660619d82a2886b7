-- ===== src/Redact/Bounds.antt =====
-- How long a logged string is, and which bytes it has.
use zensu_monitoring_agent.Prelude.{
  ℕ, zero, suc, ◌+◌, ◌≤◌, ◌≡◌, true, [], ◌∷◌, Str, length, length-filter-le, filter, All, inl, inr,
  Bool, Bool-cases, arith, refl, ap,
}
use zensu_monitoring_agent.Redact.{
  take, drop, truncate, reverse, trim, trim_space, space_head, space_last, printable, sanitize,
  for_log, snippet_bytes,
}

length-take : (n : ℕ) (s : Str) → length (take n s) ≤ n
unfolding take
length-take zero s = omega arith
length-take (suc n) [] = omega arith
length-take (suc n) (c ∷ s) = omega (arith, length-take n s)

length-drop : (n : ℕ) (s : Str) → length (drop n s) ≤ length s
unfolding drop
length-drop zero s = omega arith
length-drop (suc n) [] = omega arith
length-drop (suc n) (c ∷ s) = omega (arith, length-drop n s)

pub length-truncate : (s : Str) (n : ℕ) → length (truncate s n) ≤ n
unfolding truncate
length-truncate s n = ground (arith, length-take n s)

pub length-reverse : (s out : Str) → length (reverse s out) ≡ length s + length out
unfolding reverse
length-reverse [] out = omega arith
length-reverse (c ∷ s) out = omega (arith, length-reverse s (c ∷ out))

length-trim : (head : Str → ℕ) (f : ℕ) (s : Str) → length (trim head f s) ≤ length s
unfolding trim
length-trim head zero s = omega arith
length-trim head (suc f) s =
    ground (arith, length-trim head f (drop (head s) s), length-drop (head s) s)

length-trim_space : (s : Str) → length (trim_space s) ≤ length s
unfolding trim_space
length-trim_space s =
    let t = trim space_head (length s) s in
    let u = trim space_last (length t) (reverse t []) in
    omega (
      arith,
      length-trim space_head (length s) s,
      length-trim space_last (length t) (reverse t []),
      length-reverse t [],
      length-reverse u [],
    )

filter-All : (p : ℕ → Bool) (s : Str) → All (λ c. p c ≡ true) (filter p s)
filter-All p [] = tt
filter-All p (c ∷ s) = elim (Bool-cases (p c)) [
  | inl e ↦ rw e (e, filter-All p s)
  | inr e ↦ rw e (filter-All p s)
]

pub length-sanitize : (s : Str) → length (sanitize s) ≤ length s
unfolding sanitize
length-sanitize s = omega (arith, length-filter-le printable (trim_space s), length-trim_space s)

-- What `ForLog` leaves of any string, of whatever length and bytes, is at most 256 bytes long, and each
-- of its bytes is printable ASCII.
pub for_log-printable :
    (s : Str) → (length (for_log s) ≤ snippet_bytes) × All (λ c. printable c ≡ true) (for_log s)
unfolding for_log sanitize
for_log-printable s = (
  omega (arith, length-sanitize (truncate s snippet_bytes), length-truncate s snippet_bytes),
  filter-All printable (trim_space (truncate s snippet_bytes)),
)

pub take_all : (n : ℕ) (s : Str) → length s ≤ n → take n s ≡ s
unfolding take
take_all zero [] h = refl
take_all zero (c ∷ s) h = absurd (omega (arith, h))
take_all (suc n) [] h = refl
take_all (suc n) (c ∷ s) h = ap (λ t. c ∷ t) (take_all n s (omega (arith, h)))

pub length-take_full : (n : ℕ) (s : Str) → n ≤ length s → length (take n s) ≡ n
unfolding take
length-take_full zero s h = refl
length-take_full (suc n) [] h = absurd (omega (arith, h))
length-take_full (suc n) (c ∷ s) h = ap suc (length-take_full n s (omega (arith, h)))
