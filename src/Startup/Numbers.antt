-- ===== src/Startup/Numbers.antt =====
-- The reader of integers of cmd/zensu-monitoring-agent/main.go on the decimal numbers that Go prints.
use zensu_monitoring_agent.Prelude.{
  ℕ, zero, suc, ◌+◌, ◌*◌, ◌/◌, ◌%◌, ◌≤◌, ◌<◌, ◌≡◌, refl, ap, ◌∙◌, false, ◌&&◌, none, some, [], ◌∷◌,
  Str, is_empty, if◌then◌else◌, ltb, ◌==◌, inl, inr, Bool-cases, arith,
}
use zensu_monitoring_agent.Prelude.Int.{ℤ, pos}
use zensu_monitoring_agent.Scrape.Series.{digits, itoa}
use zensu_monitoring_agent.Startup.{Env, parse_digits, parse_int, env_int64}

parse_digits-digit :
    (d n : ℕ) (out : Str)
    → d < 10
    → parse_digits n ((b'0' + d) ∷ out) ≡ parse_digits (n * 10 + d) out
unfolding parse_digits
parse_digits-digit d n out h = ground arith

parse_digits-digits :
    (f n : ℕ) (out : Str) → n < f → parse_digits 0 (digits f n out) ≡ parse_digits n out
unfolding digits
parse_digits-digits zero n out h = absurd (omega arith)
parse_digits-digits (suc f) n out h = elim (Bool-cases (ltb n 10)) [
  | inl e ↦
      rw e (parse_digits-digit n 0 out (ground arith) ∙ ap (λ k. parse_digits k out) (omega arith))
  | inr e ↦ rw e (
      parse_digits-digits f (n / 10) ((b'0' + n % 10) ∷ out) (ground arith)
      ∙ parse_digits-digit (n % 10) (n / 10) out (omega arith)
      ∙ ap (λ k. parse_digits k out) (omega arith))
]

-- A printed number starts with a digit.
digits-head :
    (f n : ℕ) (out : Str)
    → n < f
    → (c : ℕ) × (s : Str) × (digits f n out ≡ c ∷ s) × (b'0' ≤ c) × (c ≤ b'9')
unfolding digits
digits-head zero n out h = absurd (omega arith)
digits-head (suc f) n out h = elim (Bool-cases (ltb n 10)) [
  | inl e ↦ rw e (b'0' + n, out, refl, ground arith, ground arith)
  | inr e ↦ rw e (digits-head f (n / 10) ((b'0' + n % 10) ∷ out) (ground arith))
]

-- 2 ^ 63
abbrev pub int64_bound : ℕ
int64_bound = 9223372036854775808

parse_int-itoa :
    (n : ℕ) → parse_int (itoa n []) ≡ (if ltb n int64_bound then some (pos n) else none)
unfolding itoa parse_int parse_digits
parse_int-itoa n =
    let (c, s, e, low, high) = digits-head (suc n) n [] (omega arith) in
    let back = parse_digits-digits (suc n) n [] (omega arith) in
    let read = rw e at back in
    let minus : (c == b'-') ≡ false = ground (arith, low) in
    let plus : (c == b'+') ≡ false = ground (arith, low) in
    rw (e, parse_int, minus, plus, read, parse_digits)
      (elim (Bool-cases (ltb n int64_bound)) [
        | inl fits ↦ rw fits (ground (arith, fits))
        | inr over ↦ rw over (ground (arith, over))
      ])

itoa-named : (n : ℕ) → is_empty (itoa n []) ≡ false
unfolding itoa
itoa-named n = let (c, s, e, low, high) = digits-head (suc n) n [] (omega arith) in rw e refl

-- A variable that is set to the decimal digits of a number is read back as that number if it is positive and
-- below 2 ^ 63, and else as the default: a number that does not fit in an int64 is not cut to one.
pub env_int64-itoa :
    (env : Env) (key : Str) (def : ℤ) (n : ℕ)
    → env key ≡ itoa n []
    → env_int64 env key def ≡ (if ltb 0 n && ltb n int64_bound then pos n else def)
unfolding env_int64
env_int64-itoa env key def n h = rw (env_int64, h, itoa-named n, parse_int-itoa n) (ground arith)
