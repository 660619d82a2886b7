-- ===== src/Scrape/Series.antt =====
-- `Kind`, `Series` and `Fingerprint` of internal/scrape/scrape.go. A value has an abstract type `F`.
pub mod Decimal
pub mod Sizes
pub mod Fingerprint
mod Tests
use zensu_monitoring_agent.Prelude.{
  ℕ, zero, suc, ◌+◌, ◌/◌, ◌%◌, ◌≡◌, refl, Option, none, some, List, [], ◌∷◌, ◌++◌, Str, ltb,
  if◌then◌else◌, length,
}
use zensu_monitoring_agent.Prelude.Maps.{Map, get, keys}
use zensu_monitoring_agent.Prelude.Sort.{sort}

pub data Kind : Type 0 where
  unsupported gauge counter : Kind

pub record Series (F : Type 0) : Type 0 where
  pub name : Str
  pub labels : Map Str
  pub value : F
  pub kind : Kind

-- `strconv.Itoa` of a length, in front of `out`; the fuel is more than the number of digits.
unfoldable pub digits : ℕ → ℕ → Str → Str
digits zero n out = out
digits (suc f) n out =
    let rest = digits f (n / 10) ((b'0' + n % 10) ∷ out) in
    if ltb n 10 then (b'0' + n) ∷ out else rest

unfoldable pub itoa : ℕ → Str → Str
itoa n out = digits (suc n) n out

-- `writeLenPrefixed(&b, s)`, in front of what is written after it
unfoldable pub write_len_prefixed : Str → Str → Str
write_len_prefixed s rest = itoa (length s) (b':' ∷ (s ++ rest))

-- `s.Labels[k]` is the empty string for a missing key.
abbrev pub or_empty : Option Str → Str
or_empty none = []
or_empty (some v) = v

unfoldable pub write_labels : Map Str → List Str → Str
write_labels labels [] = []
write_labels labels (k ∷ ks) =
    write_len_prefixed k (write_len_prefixed (or_empty (get k labels)) (write_labels labels ks))

unfoldable pub fingerprint : {F : Type 0} → Series F → Str
fingerprint s = write_len_prefixed s.name (write_labels s.labels (sort (keys s.labels)))

-- `for v := n; v >= 10; v /= 10 { digits++ }`
unfoldable pub count_digits : ℕ → ℕ → ℕ → ℕ
count_digits zero v acc = acc
count_digits (suc f) v acc =
    let rest = count_digits f (v / 10) (acc + 1) in if ltb v 10 then acc else rest

unfoldable pub len_prefixed_size : Str → ℕ
len_prefixed_size s = count_digits (suc (length s)) (length s) 1 + 1 + length s

-- The size for which `Fingerprint` grows its builder.
unfoldable pub label_sizes : Map Str → ℕ
label_sizes [] = 0
label_sizes ((k, v) ∷ m) = len_prefixed_size k + len_prefixed_size v + label_sizes m

unfoldable pub fingerprint_size : {F : Type 0} → Series F → ℕ
fingerprint_size s = len_prefixed_size s.name + label_sizes s.labels
