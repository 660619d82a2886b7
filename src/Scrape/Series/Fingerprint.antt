-- ===== src/Scrape/Series/Fingerprint.antt =====
-- Which series have the same `Fingerprint`.
use zensu_monitoring_agent.Prelude.{
  ◌≡◌, ◌↔◌, refl, List, [], ◌∷◌, Str, All, All_at, ap, sym, ◌∙◌, Option, none, some, Memᴰ, ap₂,
}
use zensu_monitoring_agent.Prelude.Maps.{Map, get, keys, mem_of_get, get_of_mem}
use zensu_monitoring_agent.Prelude.Sort.{
  sort, Distinct, IsStrict-ext, sort-IsStrict, mem-sort, sort-mem,
}
use zensu_monitoring_agent.Scrape.Series.{
  Series, write_len_prefixed, or_empty, write_labels, fingerprint,
}
use zensu_monitoring_agent.Scrape.Series.Decimal.{
  write_len_prefixed-injective, write_len_prefixed-ne-nil,
}

-- Equal encodings are of the same keys, with the same values.
write_labels-injective :
    (l m : Map Str) (ks js : List Str)
    → write_labels l ks ≡ write_labels m js
    → (ks ≡ js) × All (λ k. or_empty (get k l) ≡ or_empty (get k m)) ks
unfolding write_labels
write_labels-injective l m [] [] e = (refl, tt)
write_labels-injective l m [] (j ∷ js) e = absurd (write_len_prefixed-ne-nil _ _ (sym e))
write_labels-injective l m (k ∷ ks) [] e = absurd (write_len_prefixed-ne-nil _ _ e)
write_labels-injective l m (k ∷ ks) (j ∷ js) e =
    let (key, rest) = write_len_prefixed-injective k j _ _ e in
    let (value, later) = write_len_prefixed-injective _ _ _ _ rest in
    let (same, agree) = write_labels-injective l m ks js later in
    (ap₂ ◌∷◌ key same, (value ∙ ap (λ x. or_empty (get x m)) (sym key), agree))

-- What `l` holds at a key, `m` holds too, if the sorted keys and their values agree.
get-transfer :
    (l m : Map Str)
    → sort (keys l) ≡ sort (keys m)
    → All (λ k. or_empty (get k l) ≡ or_empty (get k m)) (sort (keys l))
    → (k v : Str) → get k l ≡ some v
    → get k m ≡ some v
get-transfer l m same agree k v e =
    let listed = mem-sort (keys l) (mem_of_get l e) in
    let (w, found) = get_of_mem m (sort-mem (keys m) (rw same at listed)) in
    let value = All_at (λ j. or_empty (get j l) ≡ or_empty (get j m)) _ agree listed in
    found ∙ ap some (ap or_empty (sym found) ∙ sym value ∙ ap or_empty e)

option_ext :
    (o p : Option Str)
    → ((v : Str) → o ≡ some v → p ≡ some v)
    → ((v : Str) → p ≡ some v → o ≡ some v)
    → o ≡ p
option_ext none none f g = refl
option_ext none (some w) f g = g w refl
option_ext (some v) p f g = sym (f v refl)

write_labels_ext :
    (l m : Map Str) (ks : List Str)
    → ((k : Str) → get k l ≡ get k m)
    → write_labels l ks ≡ write_labels m ks
unfolding write_labels
write_labels_ext l m [] h = refl
write_labels_ext l m (k ∷ ks) h = rw (h k, write_labels_ext l m ks h)

mem_keys_ext :
    (l m : Map Str)
    → ((k : Str) → get k l ≡ get k m)
    → (k : Str) → Memᴰ k (keys l)
    → Memᴰ k (keys m)
mem_keys_ext l m h k listed =
    let (v, found) = get_of_mem l listed in mem_of_get m (sym (h k) ∙ found)

sort-keys_ext :
    (l m : Map Str)
    → Distinct (keys l)
    → Distinct (keys m)
    → ((k : Str) → get k l ≡ get k m)
    → sort (keys l) ≡ sort (keys m)
sort-keys_ext l m d c h =
    IsStrict-ext (sort (keys l)) (sort (keys m)) (sort-IsStrict (keys l) d)
      (sort-IsStrict (keys m) c)
      (λ k s. mem-sort (keys m) (mem_keys_ext l m h k (sort-mem (keys l) s)))
      (λ k s. mem-sort (keys l) (mem_keys_ext m l (λ j. sym (h j)) k (sort-mem (keys m) s)))

-- Two series whose label maps hold each key once have the same fingerprint exactly when they have
-- the same name and the same label at every key: neither a peer's choice of label bytes nor the
-- order in which a map is walked can join or part two series.
pub fingerprint_iff :
    {F : Type 0} (s t : Series F)
    → Distinct (keys s.labels)
    → Distinct (keys t.labels)
    → (fingerprint s ≡ fingerprint t)
      ↔ ((s.name ≡ t.name) × ((k : Str) → get k s.labels ≡ get k t.labels))
unfolding fingerprint
fingerprint_iff s t d c = (forward, backward)
  where
    forward :
        fingerprint s ≡ fingerprint t
        → (s.name ≡ t.name) × ((k : Str) → get k s.labels ≡ get k t.labels)
    forward e =
        let (name, rest) = write_len_prefixed-injective s.name t.name _ _ e in
        let (same, agree) = write_labels-injective s.labels t.labels _ _ rest in
        let (same', agree') = write_labels-injective t.labels s.labels _ _ (sym rest) in
        (
          name,
          λ k.
              option_ext _ _ (get-transfer s.labels t.labels same agree k)
                (get-transfer t.labels s.labels same' agree' k),
        )

    backward :
        (s.name ≡ t.name) × ((k : Str) → get k s.labels ≡ get k t.labels)
        → fingerprint s ≡ fingerprint t
    backward (name, h) =
        rw (name, sort-keys_ext s.labels t.labels d c h)
          (ap (write_len_prefixed t.name) (write_labels_ext s.labels t.labels _ h))
