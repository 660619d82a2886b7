-- ===== src/Scrape/Series/Decimal.antt =====
-- Decimal lengths are read back.
use zensu_monitoring_agent.Prelude.{
  ℕ, zero, suc, ◌+◌, ◌-◌, ◌*◌, ◌/◌, ◌%◌, ◌≤◌, ◌<◌, ◌≡◌, refl, [], ◌∷◌, ◌++◌, Str, ◌==◌, ltb, arith,
  if◌then◌else◌, length, Bool-cases, inl, inr, ap, sym, ◌∙◌, ◌≢◌,
}
use zensu_monitoring_agent.Scrape.Series.{digits, itoa, write_len_prefixed}

-- Reads digits up to a colon: the number, and what follows the colon.
read : Str → ℕ → ℕ × Str
read [] n = (n, [])
read (c ∷ s) n = let rest = read s (n * 10 + (c - b'0')) in if c == b':' then (n, s) else rest

read-digit : (d n : ℕ) (out : Str) → d < 10 → read ((b'0' + d) ∷ out) n ≡ read out (n * 10 + d)
unfolding read
read-digit d n out h = ground arith

read-digits : (f n : ℕ) (out : Str) → n < f → read (digits f n out) 0 ≡ read out n
unfolding digits
read-digits zero n out h = absurd (omega arith)
read-digits (suc f) n out h = elim (Bool-cases (ltb n 10)) [
  | inl e ↦ rw e (read-digit n 0 out (ground arith) ∙ ap (read out) (omega arith))
  | inr e ↦ rw e (
      read-digits f (n / 10) ((b'0' + n % 10) ∷ out) (ground arith)
      ∙ read-digit (n % 10) (n / 10) out (omega arith)
      ∙ ap (read out) (omega arith))
]

digits-append : (f n : ℕ) (out rest : Str) → digits f n out ++ rest ≡ digits f n (out ++ rest)
unfolding digits
digits-append zero n out rest = refl
digits-append (suc f) n out rest =
    ground (arith, digits-append f (n / 10) ((b'0' + n % 10) ∷ out) rest)

-- A length-prefixed string is read back as its length, its bytes and what follows.
read-write : (s rest : Str) → read (write_len_prefixed s rest) 0 ≡ (length s, s ++ rest)
unfolding write_len_prefixed itoa read
read-write s rest = read-digits (suc (length s)) (length s) (b':' ∷ (s ++ rest)) (omega arith)

append_cut : (s t r q : Str) → length s ≡ length t → s ++ r ≡ t ++ q → (s ≡ t) × (r ≡ q)
append_cut [] [] r q n e = (refl, e)
append_cut [] (b ∷ t) r q n e = absurd (omega arith)
append_cut (a ∷ s) [] r q n e = absurd (omega arith)
append_cut (a ∷ s) (b ∷ t) r q n e =
    let (same, rest) = append_cut s t r q (omega arith) (cc) in (cc, rest)

pub write_len_prefixed-injective :
    (s t r q : Str) → write_len_prefixed s r ≡ write_len_prefixed t q → (s ≡ t) × (r ≡ q)
write_len_prefixed-injective s t r q e =
    let both = sym (read-write s r) ∙ ap (λ x. read x 0) e ∙ read-write t q in
    append_cut s t r q (ap (λ p. p.0) both) (ap (λ p. p.1) both)

length-digits-le : (f n : ℕ) (out : Str) → length out ≤ length (digits f n out)
unfolding digits
length-digits-le zero n out = omega arith
length-digits-le (suc f) n out = ground (arith, length-digits-le f (n / 10) ((b'0' + n % 10) ∷ out))

pub write_len_prefixed-ne-nil : (s rest : Str) → write_len_prefixed s rest ≢ []
unfolding write_len_prefixed itoa
write_len_prefixed-ne-nil s rest e =
    omega (arith, length-digits-le (suc (length s)) (length s) (b':' ∷ (s ++ rest)), ap length e)
