-- ===== src/Scrape/Resolve/Rounds.antt =====
-- The rounds of the loop of `NormalizeName` in internal/scrape/resolve.go, without fuel: that it ends, and with what.
use zensu_monitoring_agent.Prelude.{
  ℕ, zero, suc, ◌+◌, ◌<◌, ◌≤◌, ◌≡◌, sym, ap, subst, ◌∙◌, true, false, Str, length, arith,
  Bool-cases, inl, inr,
}
use zensu_monitoring_agent.Scrape.BaseNames.{unit_suffixes, strip, normalize_loop, normalize_name}
use zensu_monitoring_agent.Scrape.Resolve.Suffixes.{suffixes_long, strip-lt}

-- The loop, begun with a name, ends with another after a number of rounds: the last one changes nothing.
pub data Rounds (out : Str) : ℕ → Str → Type 0 where
  last_round : {name : Str} → strip unit_suffixes name false ≡ (out, false) → Rounds out 1 name
  again :
      {k : ℕ} {name next : Str}
      → strip unit_suffixes name false ≡ (next, true)
      → Rounds out k next
      → Rounds out (suc k) name

normalize_loop-Rounds :
    (f : ℕ) (name : Str)
    → length name < f
    → (k : ℕ) × Rounds (normalize_loop f name) k name × (k ≤ length name + 1)
unfolding normalize_loop
normalize_loop-Rounds zero name h = absurd (omega arith)
normalize_loop-Rounds (suc f) name h = elim (Bool-cases (strip unit_suffixes name false).1) [
  | inl e ↦
      let shorter = strip-lt unit_suffixes name suffixes_long e in
      let (k, rounds, few) =
        normalize_loop-Rounds f (strip unit_suffixes name false).0 (omega (arith, shorter, h)) in
      rw e (
        suc k,
        again (ap (λ b. ((strip unit_suffixes name false).0, b)) e) rounds,
        omega (arith, few, shorter),
      )
  | inr e ↦ rw e (1, last_round (ap (λ b. ((strip unit_suffixes name false).0, b)) e), omega arith)
]

Rounds-unique : {a b : Str} {k j : ℕ} {name : Str} → Rounds a k name → Rounds b j name → a ≡ b
Rounds-unique (last_round e) (last_round d) = ap (λ p. p.0) (sym e ∙ d)
Rounds-unique (last_round e) (again d _) = absurd (ground (arith, ap (λ p. p.1) (sym e ∙ d)))
Rounds-unique (again e _) (last_round d) = absurd (ground (arith, ap (λ p. p.1) (sym e ∙ d)))
Rounds-unique {a} (again {k} e r) (again d q) =
    Rounds-unique (subst (Rounds a k) (ap (λ p. p.0) (sym e ∙ d)) r) q

-- On any name the loop of `NormalizeName` ends after at most as many rounds as the name has bytes and one more,
-- its last round changes nothing, and what it ends with is the result; it can end with nothing else.
pub normalize_name-Rounds :
    (name : Str)
    → ((k : ℕ) × Rounds (normalize_name name) k name × (k ≤ length name + 1))
      × ((out : Str) (j : ℕ) → Rounds out j name → out ≡ normalize_name name)
unfolding normalize_name
normalize_name-Rounds name =
    let (k, rounds, few) = normalize_loop-Rounds (suc (length name)) name (omega arith) in
    ((k, rounds, few), λ out j others. Rounds-unique others rounds)
