-- ===== src/Agent/Collect/Warned.antt =====
-- What `warnDuplicateSlug` of internal/agent/agent.go has written to the log.
use zensu_monitoring_agent.Prelude.{
  ℕ, ◌+◌, ◌≤◌, ◌≡◌, refl, sym, ap, ◌∙◌, true, false, List, [], ◌∷◌, ◌++◌, append-nil, append_assoc,
  Str, eqb, is_empty, if◌then◌else◌, leb, length, inl, inr, Bool-cases, Option-cases, arith,
}
use zensu_monitoring_agent.Prelude.Maps.{Map, get, put, has, keys}
use zensu_monitoring_agent.Prelude.Sort.{Distinct}
use zensu_monitoring_agent.Agent.Workload.{Deployment, Pod, map_deployment, deployment_selector}
use zensu_monitoring_agent.Agent.Exposition.Totals.{Distinct-put}
use zensu_monitoring_agent.Agent.Collect.{
  Warning, too_many_pairs, claimed_twice, list_pods_failed, Latch, noted, workload, Listing,
  listing, list_error, Config, Gathered, max_warned_slug_pairs, warn_duplicate_slug, add_workload,
  gather_one, gather_all, gather,
}
use zensu_monitoring_agent.Agent.Collect.Claims.{warned-le, Listing-cases}

-- What every tick keeps of the latch, if the two warnings keep it.
module _ (P : Latch → Type 0)
    (warns : (slug reported shadowed : Str) (l : Latch)
      → P l
      → P (warn_duplicate_slug slug reported shadowed l))
    (fails : (name e : Str) (l : Latch)
      → P l
      → P (record l { log = l.log ++ list_pods_failed name e ∷ [] })) where
  noted-keeps :
      (sel : Str) (d : Deployment) (pods : Listing (List Pod)) (l : Latch)
      → P l
      → P (noted sel d pods l)
  noted-keeps sel d (listing pods) l h = elim (Bool-cases (is_empty sel)) [
    | inl b ↦ rw b h
    | inr b ↦ rw b h
  ]
  noted-keeps sel d (list_error e) l h = elim (Bool-cases (is_empty sel)) [
    | inl b ↦ rw b h
    | inr b ↦ rw b (fails d.name e l h)
  ]

  module _ {F : Type 0} (list_pods : Str → Str → Listing (List Pod)) (cfg : Config) where
    gather_one-keeps :
        (ns : Str) (d : Deployment) (g : Gathered F)
        → P g.latch
        → P (gather_one list_pods cfg ns d g).latch
    unfolding gather_one add_workload
    gather_one-keeps ns d g h = elim (Option-cases (map_deployment {F = F} d)) [
      | inl e ↦ rw (gather_one, e) h
      | inr (entry, e) ↦ elim (Option-cases (get entry.slug g.claimed)) [
        | inr (owner, taken) ↦
            rw (gather_one, e, taken) (warns entry.slug owner (workload ns d) g.latch h)
        | inl free ↦ rw (gather_one, e, free) (noted-keeps (deployment_selector d) d _ g.latch h)
      ]
    ]

    gather_all-keeps :
        (ns : Str) (deps : List Deployment) (g : Gathered F)
        → P g.latch
        → P (gather_all list_pods cfg ns deps g).latch
    unfolding gather_all
    gather_all-keeps ns [] g h = h
    gather_all-keeps ns (d ∷ deps) g h =
        gather_all-keeps ns deps (gather_one list_pods cfg ns d g) (gather_one-keeps ns d g h)

    pub gather-keeps :
        (list_deployments : Str → Listing (List Deployment)) (namespaces : List Str)
        (g : Gathered F)
        → P g.latch
        → P (gather list_pods list_deployments cfg namespaces g).0.latch
    unfolding gather
    gather-keeps list_deployments [] g h = h
    gather-keeps list_deployments (ns ∷ more) g h = elim (Listing-cases (list_deployments ns)) [
      | inr (e, failed) ↦ rw (gather, failed) h
      | inl (deps, listed) ↦
          rw (gather, listed)
            (gather-keeps list_deployments more (gather_all list_pods cfg ns deps g)
              (gather_all-keeps ns deps g h))
    ]

-- The pairs that a warning names, as the latch keys them.
abbrev named_by : Warning → List Str
named_by too_many_pairs = []
named_by (claimed_twice slug reported shadowed) = (slug ++ 0x1f ∷ shadowed) ∷ []
named_by (list_pods_failed name e) = []

abbrev pub named : List Warning → List Str
named [] = []
named (w ∷ ws) = named_by w ++ named ws

abbrev overflow_of : Warning → ℕ
overflow_of too_many_pairs = 1
overflow_of (claimed_twice slug reported shadowed) = 0
overflow_of (list_pods_failed name e) = 0

-- How often the log says that there are too many pairs.
abbrev pub overflows : List Warning → ℕ
overflows [] = 0
overflows (w ∷ ws) = overflow_of w + overflows ws

named-append : (ws : List Warning) (w : Warning) → named (ws ++ w ∷ []) ≡ named ws ++ named_by w
named-append [] w = append-nil (named_by w)
named-append (v ∷ ws) w =
    ap (λ x. named_by v ++ x) (named-append ws w) ∙ sym (append_assoc (named_by v) (named ws) _)

overflows-append :
    (ws : List Warning) (w : Warning) → overflows (ws ++ w ∷ []) ≡ overflows ws + overflow_of w
overflows-append [] w = omega arith
overflows-append (v ∷ ws) w = omega (arith, overflows-append ws w)

add_zero : (n : ℕ) → n + 0 ≡ n
add_zero n = omega arith

keys-put-new :
    {V : Type 0} (k : Str) (v : V) (m : Map V)
    → has k m ≡ false
    → keys (put k v m) ≡ keys m ++ k ∷ []
unfolding put get
keys-put-new k v [] h = refl
keys-put-new k v ((j, w) ∷ m) h = elim (Bool-cases (eqb j k)) [
  | inl e ↦ absurd (ground (arith, rw e at h))
  | inr e ↦ rw e (ap (λ x. j ∷ x) (keys-put-new k v m (rw e at h)))
]

-- The latch holds the pairs that the log names, in the order in which it names them, no pair twice and at
-- most 1024; and the log says once that there are more, if the latch has noted that, and else not.
abbrev pub IsOnce : Latch → Type 0
IsOnce l =
    (named l.log ≡ keys l.warned)
    × Distinct (keys l.warned)
    × (length l.warned ≤ max_warned_slug_pairs)
    × (overflows l.log ≡ (if l.overflow then 1 else 0))

pub warn_duplicate_slug-IsOnce :
    (slug reported shadowed : Str) (l : Latch)
    → IsOnce l
    → IsOnce (warn_duplicate_slug slug reported shadowed l)
unfolding warn_duplicate_slug
warn_duplicate_slug-IsOnce slug reported shadowed l (names, distinct, small, once) =
    let key = slug ++ 0x1f ∷ shadowed in
    let named_later = named-append l.log (claimed_twice slug reported shadowed) in
    let bound = warned-le slug reported shadowed l small in
    elim (Bool-cases (has key l.warned)) [
      | inl seen ↦ rw (warn_duplicate_slug, seen) (names, distinct, small, once)
      | inr unseen ↦ elim (Bool-cases (leb max_warned_slug_pairs (length l.warned))) [
        | inl full ↦ elim (Bool-cases l.overflow) [
          | inl noted ↦
              rw (warn_duplicate_slug, unseen, full, noted)
                (names, distinct, small, rw noted at once)
          | inr not_yet ↦
              rw (warn_duplicate_slug, unseen, full, not_yet)
                (
                  named-append l.log too_many_pairs ∙ append-nil (named l.log) ∙ names,
                  distinct,
                  small,
                  overflows-append l.log too_many_pairs ∙ omega (arith, rw not_yet at once),
                )
        ]
        | inr room ↦
            rw (warn_duplicate_slug, unseen, room)
              (
                named_later
                    ∙ ap (λ x. x ++ key ∷ []) names
                    ∙ sym (keys-put-new key true l.warned unseen),
                Distinct-put key true l.warned distinct,
                rw (warn_duplicate_slug, unseen, room) at bound,
                overflows-append l.log (claimed_twice slug reported shadowed) ∙ add_zero _ ∙ once,
              )
      ]
    ]

pub list_pods_failed-IsOnce :
    (name e : Str) (l : Latch)
    → IsOnce l
    → IsOnce (record l { log = l.log ++ list_pods_failed name e ∷ [] })
list_pods_failed-IsOnce name e l (names, distinct, small, once) = (
  named-append l.log (list_pods_failed name e) ∙ append-nil (named l.log) ∙ names,
  distinct,
  small,
  overflows-append l.log (list_pods_failed name e) ∙ add_zero _ ∙ once,
)
