-- ===== src/Scrape/Decode/Limit.antt =====
-- The cap on the body: `ceiling` and `readLimit`.
use zensu_monitoring_agent.Prelude.{
  ℕ, ◌+◌, ◌*◌, ◌^◌, ◌≤◌, ◌<◌, ◌≡◌, ◌⊎◌, inl, inr, refl, ◌||◌, leb, ltb, Bool-cases, arith, ◌↔◌,
}
use zensu_monitoring_agent.Prelude.Int.{pos, ℤ-cases}
use zensu_monitoring_agent.Scrape.Decode.{
  Client, default_max_bytes, max_configurable_bytes, expansion_factor, positive_or, ceiling,
  read_limit, effective_max_bytes,
}

pub ceiling_bounds :
    (runtime_limit : ℕ) (c : Client)
    → (default_max_bytes ≤ ceiling runtime_limit c)
      × (ceiling runtime_limit c ≤ max_configurable_bytes)
      × (default_max_bytes < ceiling runtime_limit c
          → expansion_factor * ceiling runtime_limit c ≤ positive_or c.mem_limit runtime_limit)
unfolding ceiling
ceiling_bounds runtime_limit c = (ground arith, ground arith, λ h. ground arith)

-- The cap in force is the configured one if that is positive and at most the ceiling, else the default.
abbrev IsCap : ℕ → Client → ℕ → Type 0
IsCap runtime_limit c n =
    (n ≡ default_max_bytes) ⊎ ((c.max_bytes ≡ pos n) × (1 ≤ n) × (n ≤ ceiling runtime_limit c))

read_limit-IsCap :
    (runtime_limit : ℕ) (c : Client) → IsCap runtime_limit c (read_limit runtime_limit c)
unfolding read_limit
read_limit-IsCap runtime_limit c = elim (ℤ-cases c.max_bytes) [
  | inr (n, e) ↦ rw (e, read_limit) (inl refl)
  | inl (n, e) ↦ elim (Bool-cases (leb n 0 || ltb (ceiling runtime_limit c) n)) [
    | inl refused ↦ rw (e, read_limit, refused) (inl refl)
    | inr taken ↦ rw (e, read_limit, taken) (inr (refl, ground arith, ground arith))
  ]
]

-- Whatever the configured cap and memory limit are, the cap in force is between 1 byte and 16 MiB and is
-- at most the ceiling, so that the cap and one more byte fit in an int64; and a cap above the default is
-- in force only if ten times as many bytes fit in the memory limit.
pub read_limit_bounds :
    (runtime_limit : ℕ) (c : Client)
    → (1 ≤ read_limit runtime_limit c)
      × (read_limit runtime_limit c ≤ max_configurable_bytes)
      × (read_limit runtime_limit c ≤ ceiling runtime_limit c)
      × (read_limit runtime_limit c + 1 < 2 ^ 63)
      × (default_max_bytes < read_limit runtime_limit c
          → expansion_factor * read_limit runtime_limit c ≤ positive_or c.mem_limit runtime_limit)
read_limit_bounds runtime_limit c =
    let (low, high, affords) = ceiling_bounds runtime_limit c in
    elim (read_limit-IsCap runtime_limit c) [
      | inl e ↦ (omega arith, omega arith, omega arith, omega arith, λ h. absurd (omega arith))
      | inr (e, some_bytes, fits) ↦
          (omega arith, omega arith, fits, omega arith, λ h. omega (arith, affords (omega arith)))
    ]

-- The cap in force is the configured one exactly when that is the default, or is positive and at most the
-- ceiling.
pub effective_iff :
    (runtime_limit n : ℕ) (c : Client)
    → c.max_bytes ≡ pos n
    → (effective_max_bytes runtime_limit c ≡ n)
      ↔ ((n ≡ default_max_bytes) ⊎ ((1 ≤ n) × (n ≤ ceiling runtime_limit c)))
unfolding effective_max_bytes read_limit
effective_iff runtime_limit n c h =
    rw (h, read_limit) (ground (arith, ceiling_bounds runtime_limit c))
