-- ===== src/Scrape/BaseNames.antt =====
-- `NormalizeName` of internal/scrape/resolve.go: the name of a metric without its units.
use zensu_monitoring_agent.Prelude.{
  ℕ, zero, suc, Bool, true, false, not, ◌&&◌, List, [], ◌∷◌, Str, codes, eqb, is_empty,
  if◌then◌else◌, length,
}

-- `strings.TrimSuffix`: what stands before the suffix, or the whole string.
unfoldable pub trim_suffix : Str → Str → Str
trim_suffix [] suffix = []
trim_suffix (c ∷ s) suffix = if eqb (c ∷ s) suffix then [] else c ∷ trim_suffix s suffix

abbrev pub unit_suffixes : List Str
unit_suffixes = codes "_total" ∷ codes "_bytes" ∷ codes "_seconds" ∷ []

-- The inner loop of `NormalizeName`: the name, and whether a suffix came off.
unfoldable pub strip : List Str → Str → Bool → Str × Bool
strip [] name changed = (name, changed)
strip (suffix ∷ more) name changed =
    let trimmed = trim_suffix name suffix in
    let hit = not (eqb trimmed name) && not (is_empty trimmed) in
    strip more (if hit then trimmed else name) (if hit then true else changed)

-- `for changed := true; changed;`, on fuel: a round that changes the name makes it shorter.
unfoldable pub normalize_loop : ℕ → Str → Str
normalize_loop zero name = name
normalize_loop (suc f) name =
    let (name', changed) = strip unit_suffixes name false in
    let again = normalize_loop f name' in if changed then again else name'

unfoldable pub normalize_name : Str → Str
normalize_name name = normalize_loop (suc (length name)) name
