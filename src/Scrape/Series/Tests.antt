-- ===== src/Scrape/Series/Tests.antt =====
-- Runs of `Fingerprint` at concrete series, and the theorems at inputs where their hypotheses hold.
use zensu_monitoring_agent.Prelude.{ℕ, ◌≡◌, ◌↔◌, refl, [], ◌∷◌, codes, Str, eqb}
use zensu_monitoring_agent.Prelude.Maps.{get}
use zensu_monitoring_agent.Prelude.Sort.{sort}
use zensu_monitoring_agent.Scrape.Series.{
  Series, gauge, digits, itoa, count_digits, write_len_prefixed, write_labels, fingerprint,
  len_prefixed_size, label_sizes, fingerprint_size,
}
use zensu_monitoring_agent.Scrape.Series.Fingerprint.{fingerprint_iff}

abbrev pod_first : Series ℕ
pod_first = record {
  name = codes "up";
  labels = (codes "pod", codes "a1") ∷ (codes "ns", codes "") ∷ [];
  value = 1;
  kind = gauge;
}

abbrev ns_first : Series ℕ
ns_first = record {
  name = codes "up";
  labels = (codes "ns", codes "") ∷ (codes "pod", codes "a1") ∷ [];
  value = 7;
  kind = gauge;
}

fingerprint_run : fingerprint pod_first ≡ codes "2:up2:ns0:3:pod2:a1"
unfolding fingerprint write_len_prefixed write_labels itoa digits sort get eqb
fingerprint_run = refl

fingerprint_size_run : fingerprint_size pod_first ≡ 19
unfolding fingerprint_size len_prefixed_size label_sizes count_digits
fingerprint_size_run = refl

fingerprint_iff_example : (fingerprint pod_first ≡ fingerprint ns_first) ↔ (
    (pod_first.name ≡ ns_first.name) × ((k : Str) → get k pod_first.labels ≡ get k ns_first.labels))
unfolding eqb
fingerprint_iff_example =
    fingerprint_iff pod_first ns_first ((refl, tt), (tt, tt)) ((refl, tt), (tt, tt))
