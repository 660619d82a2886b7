-- ===== src/Scrape/Series/Sizes.antt =====
-- The bytes that `Fingerprint` writes, and those for which it grows its builder.
use zensu_monitoring_agent.Prelude.{
  ℕ, zero, suc, ◌+◌, ◌/◌, ◌%◌, ◌<◌, ◌≡◌, refl, List, [], ◌∷◌, ◌++◌, Str, arith, length, All,
  length-append, eqb, eqb_refl, ap, false, some, Bool-cases, inl, inr,
}
use zensu_monitoring_agent.Prelude.Maps.{Map, get, keys}
use zensu_monitoring_agent.Prelude.Sort.{sort, insert, Distinct, str_ltb}
use zensu_monitoring_agent.Scrape.Series.{
  Series, digits, itoa, count_digits, len_prefixed_size, write_len_prefixed, or_empty, write_labels,
  fingerprint, label_sizes, fingerprint_size,
}

length-digits :
    (f n : ℕ) (out : Str) → n < f → length (digits f n out) ≡ count_digits f n (suc (length out))
unfolding digits count_digits
length-digits zero n out h = absurd (omega arith)
length-digits (suc f) n out h = ground (arith, length-digits f (n / 10) ((b'0' + n % 10) ∷ out))

count_digits-add : (f n a b : ℕ) → count_digits f n (a + b) ≡ count_digits f n a + b
unfolding count_digits
count_digits-add zero n a b = refl
count_digits-add (suc f) n a b = ground (
  arith,
  count_digits-add f (n / 10) (a + 1) b,
  ap (λ c. count_digits f (n / 10) c) (swap_one a b),
)
  where
    swap_one : (a b : ℕ) → a + b + 1 ≡ a + 1 + b
    swap_one a b = omega arith

write-eq-digits :
    (s rest : Str)
    → write_len_prefixed s rest ≡ digits (suc (length s)) (length s) (b':' ∷ (s ++ rest))
unfolding write_len_prefixed itoa
write-eq-digits s rest = refl

size-eq-count :
    (s : Str) → len_prefixed_size s ≡ count_digits (suc (length s)) (length s) 1 + 1 + length s
unfolding len_prefixed_size
size-eq-count s = refl

-- `lenPrefixedSize` is the number of bytes that `writeLenPrefixed` writes.
pub length-write :
    (s rest : Str) → length (write_len_prefixed s rest) ≡ len_prefixed_size s + length rest
length-write s rest =
    let n = length s in
    rw (write-eq-digits, size-eq-count)
      (omega (
        arith,
        length-digits (suc n) n (b':' ∷ (s ++ rest)) (omega arith),
        count_digits-add (suc n) n 1 (suc (length (s ++ rest))),
        ap (λ c. count_digits (suc n) n c) (shift (length (s ++ rest))),
        length-append {0} s rest,
      ))
  where
    shift : (m : ℕ) → suc (suc m) ≡ 1 + suc m
    shift m = omega arith

-- The bytes that the labels of the keys `ks` take.
written : Map Str → List Str → ℕ
written m [] = 0
written m (k ∷ ks) = len_prefixed_size k + len_prefixed_size (or_empty (get k m)) + written m ks

length-write_labels : (m : Map Str) (ks : List Str) → length (write_labels m ks) ≡ written m ks
unfolding written write_labels
length-write_labels m [] = refl
length-write_labels m (k ∷ ks) =
    let v = or_empty (get k m) in
    omega (
      arith,
      length-write k (write_len_prefixed v (write_labels m ks)),
      length-write v (write_labels m ks),
      length-write_labels m ks,
    )

written-insert :
    (m : Map Str) (k : Str) (ks : List Str) → written m (insert k ks) ≡ written m (k ∷ ks)
unfolding written insert
written-insert m k [] = refl
written-insert m k (j ∷ ks) = elim (Bool-cases (str_ltb j k)) [
  | inl e ↦ rw e (omega (arith, written-insert m k ks))
  | inr e ↦ rw e
]

written-sort : (m : Map Str) (ks : List Str) → written m (sort ks) ≡ written m ks
unfolding sort written
written-sort m [] = refl
written-sort m (k ∷ ks) = omega (arith, written-insert m k (sort ks), written-sort m ks)

-- Each entry of `l` is what its key looks up in `m`.
abbrev Agrees : Map Str → Map Str → Type 0
Agrees m = All (λ p. get p.0 m ≡ some p.1)

Agrees-cons :
    (m l : Map Str) (k v : Str)
    → All (λ j. eqb k j ≡ false) (keys l)
    → Agrees m l
    → Agrees ((k, v) ∷ m) l
unfolding get
Agrees-cons m [] k v d h = tt
Agrees-cons m ((j, w) ∷ l) k v d h = (rw d.0 h.0, Agrees-cons m l k v d.1 h.1)

Agrees-self : (m : Map Str) → Distinct (keys m) → Agrees m m
unfolding get
Agrees-self [] d = tt
Agrees-self ((k, v) ∷ m) d = (rw (eqb_refl k), Agrees-cons m m k v d.0 (Agrees-self m d.1))

written-keys : (m l : Map Str) → Agrees m l → written m (keys l) ≡ label_sizes l
unfolding written label_sizes
written-keys m [] h = refl
written-keys m ((k, v) ∷ l) h = rw h.0 (omega (arith, written-keys m l h.1))

-- The builder that `Fingerprint` grows once has the exact size of the fingerprint.
pub length-fingerprint :
    {F : Type 0} (s : Series F)
    → Distinct (keys s.labels)
    → length (fingerprint s) ≡ fingerprint_size s
unfolding fingerprint fingerprint_size
length-fingerprint s d =
    let m = s.labels in
    omega (
      arith,
      length-write s.name (write_labels m (sort (keys m))),
      length-write_labels m (sort (keys m)),
      written-sort m (keys m),
      written-keys m m (Agrees-self m d),
    )
