-- ===== src/Agent/Workload/Restarts.antt =====
-- The sum of the restart counts, in 32 bits.
use zensu_monitoring_agent.Prelude.{ℕ, ◌+◌, ◌<◌, ◌≡◌, ap, ◌∙◌, List, [], ◌∷◌, All, arith}
use zensu_monitoring_agent.Prelude.Int.{ℤ, pos, negsuc, pos_part, neg_part, ◌+ℤ◌, residue, wrap}
use zensu_monitoring_agent.Agent.Workload.{Pod, add_all, sum_from, sum_restarts}

abbrev pub IsCount : ℤ → Type 0
IsCount x = neg_part x ≡ 0

abbrev pub sum_counts : List ℤ → ℕ
sum_counts [] = 0
sum_counts (x ∷ xs) = pos_part x + sum_counts xs

abbrev pub sum_pod_counts : List Pod → ℕ
sum_pod_counts [] = 0
sum_pod_counts (p ∷ pods) = sum_counts p.restart_counts + sum_pod_counts pods

wrap_small : (n : ℕ) → n < 2147483648 → wrap 32 (pos n) ≡ pos n
unfolding wrap residue
wrap_small n h = ground arith

add_count : (n : ℕ) (x : ℤ) → IsCount x → pos n +ℤ x ≡ pos (n + pos_part x)
unfolding ◌+ℤ◌
add_count n (pos m) h = ground arith
add_count n (negsuc m) h = absurd (omega (arith, h))

add_all_lem :
    (xs : List ℤ) (n : ℕ)
    → All IsCount xs
    → n + sum_counts xs < 2147483648
    → add_all 32 xs (pos n) ≡ pos (n + sum_counts xs)
unfolding add_all
add_all_lem [] n h small = ap pos (omega arith)
add_all_lem (x ∷ xs) n h small =
    rw (add_count n x h.0, wrap_small (n + pos_part x) (omega arith))
      (add_all_lem xs (n + pos_part x) h.1 (omega (arith, small)) ∙ ap pos (omega arith))

sum_from_lem :
    (pods : List Pod) (n : ℕ)
    → All (λ p. All IsCount p.restart_counts) pods
    → n + sum_pod_counts pods < 2147483648
    → sum_from pods (pos n) ≡ pos (n + sum_pod_counts pods)
unfolding sum_from
sum_from_lem [] n h small = ap pos (omega arith)
sum_from_lem (p ∷ pods) n h small = rw (add_all_lem p.restart_counts n h.0 (omega arith)) (
    sum_from_lem pods (n + sum_counts p.restart_counts) h.1 (omega (arith, small))
    ∙ ap pos (omega arith))

-- If no count is negative and the counts of all containers of all pods add up to less than 2^31, then the
-- restart count is their sum.
pub sum_restarts_lem :
    (pods : List Pod)
    → All (λ p. All IsCount p.restart_counts) pods
    → sum_pod_counts pods < 2147483648
    → sum_restarts pods ≡ pos (sum_pod_counts pods)
unfolding sum_restarts
sum_restarts_lem pods h small = sum_from_lem pods 0 h (omega (arith, small)) ∙ ap pos (omega arith)
