-- ===== src/Scrape/Resolve/PodKeys.antt =====
-- The keys of pods.
use zensu_monitoring_agent.Prelude.{◌≡◌, ◌≢◌, some, refl, sym, ◌∙◌, [], ◌∷◌, ◌++◌, Str, All, arith}
use zensu_monitoring_agent.Scrape.Labels.{pod_key}

-- The byte 0x1f does not stand in the string.
abbrev pub Unseparated : Str → Type 0
Unseparated = All (λ c. c ≢ 0x1f)

split_key :
    (a b p q : Str)
    → Unseparated a
    → Unseparated b
    → a ++ 0x1f ∷ p ≡ b ++ 0x1f ∷ q
    → (a ≡ b) × (p ≡ q)
split_key [] [] p q h k e = (refl, cc)
split_key [] (d ∷ b) p q h k e = absurd (k.0 (cc))
split_key (c ∷ a) [] p q h k e = absurd (h.0 (cc))
split_key (c ∷ a) (d ∷ b) p q h k e =
    let (same, rest) = split_key a b p q h.1 k.1 (cc) in (cc, rest)

-- For namespaces without the separator byte, `PodKey` gives the same key only to the same namespace
-- and pod.
pub pod_key-injective :
    (ns ns' pod pod' key : Str)
    → Unseparated ns
    → Unseparated ns'
    → pod_key ns pod ≡ some key
    → pod_key ns' pod' ≡ some key
    → (ns ≡ ns') × (pod ≡ pod')
unfolding pod_key
pod_key-injective ns ns' pod pod' key h k e e' =
    split_key ns ns' pod pod' h k (key_is ns pod key e ∙ sym (key_is ns' pod' key e'))
  where
    key_is : (ns pod key : Str) → pod_key ns pod ≡ some key → ns ++ 0x1f ∷ pod ≡ key
    key_is ns pod key e = ground arith
