-- ===== src/Startup/Names.antt =====
-- The lists of names that `envList` reads, and the texts that give them.
use zensu_monitoring_agent.Prelude.{
  ◌<◌, ◌≡◌, refl, ap, ◌∙◌, false, List, [], ◌∷◌, ◌++◌, Str, ◌==◌, length, map, All, arith,
}
use zensu_monitoring_agent.Redact.{trim_space, trim, reverse}
use zensu_monitoring_agent.Startup.{Env, split, trimmed, or_default, env_list}
use zensu_monitoring_agent.Startup.Settings.{IsNamed}

-- The pieces with commas between.
abbrev pub join : List Str → Str
join [] = []
join (q ∷ []) = q
join (q ∷ r ∷ more) = q ++ b',' ∷ join (r ∷ more)

-- No byte of the piece is a comma.
abbrev pub HasNoComma : Str → Type 0
HasNoComma q = All (λ c. (c == b',') ≡ false) q

split-last : (q : Str) → HasNoComma q → split b',' q ≡ q ∷ []
unfolding split
split-last [] h = refl
split-last (c ∷ q) h = rw (split, h.0, split-last q h.1) refl

split-append : (q s : Str) → HasNoComma q → split b',' (q ++ b',' ∷ s) ≡ q ∷ split b',' s
unfolding split
split-append [] s h = refl
split-append (c ∷ q) s h = rw (split, h.0, split-append q s h.1) refl

split-join : (ps : List Str) → 0 < length ps → All HasNoComma ps → split b',' (join ps) ≡ ps
split-join [] h k = absurd (omega (arith, h))
split-join (q ∷ []) h k = split-last q k.0
split-join (q ∷ r ∷ more) h k =
    split-append q (join (r ∷ more)) k.0 ∙ ap (λ x. q ∷ x) (split-join (r ∷ more) (omega arith) k.1)

trimmed_all :
    (ps : List Str) → All (λ q. IsNamed (trim_space q)) ps → trimmed ps ≡ map trim_space ps
unfolding trimmed
trimmed_all [] h = refl
trimmed_all (q ∷ ps) h = rw (trimmed, h.0, trimmed_all ps h.1) refl

join-IsNamed :
    (ps : List Str) → 0 < length ps → All (λ q. IsNamed (trim_space q)) ps → IsNamed (join ps)
unfolding trim_space reverse trim
join-IsNamed [] h k = absurd (omega (arith, h))
join-IsNamed ([] ∷ []) h k = absurd (ground (arith, k))
join-IsNamed ((c ∷ q) ∷ []) h k = refl
join-IsNamed ([] ∷ r ∷ more) h k = refl
join-IsNamed ((c ∷ q) ∷ r ∷ more) h k = refl

or_default-map :
    (def ps : List Str) → 0 < length ps → or_default def (map trim_space ps) ≡ map trim_space ps
or_default-map def [] h = absurd (omega (arith, h))
or_default-map def (q ∷ ps) h = refl

-- A variable that holds one or more pieces with commas between, none of which has a comma or is only white
-- space, is read as exactly those pieces without the white space around them, in their order.
pub env_list-join :
    (env : Env) (key : Str) (def ps : List Str)
    → 0 < length ps
    → All HasNoComma ps
    → All (λ q. IsNamed (trim_space q)) ps
    → env key ≡ join ps
    → env_list env key def ≡ map trim_space ps
unfolding env_list
env_list-join env key def ps some_piece commas named h =
    rw
      (
        env_list,
        h,
        join-IsNamed ps some_piece named,
        split-join ps some_piece commas,
        trimmed_all ps named,
      )
      (or_default-map def ps some_piece)
