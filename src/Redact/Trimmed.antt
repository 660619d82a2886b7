-- ===== src/Redact/Trimmed.antt =====
-- What `strings.TrimSpace` takes off a string, as internal/redact/redact.go uses it.
use zensu_monitoring_agent.Prelude.{
  ◌≤◌, ◌<◌, ◌≡◌, ◌≢◌, refl, sym, subst, ap, ◌∙◌, [], ◌∷◌, ◌++◌, append-nil, Str, length, filter,
  arith,
}
use zensu_monitoring_agent.Redact.Bounds.{length-reverse, for_log-printable}
use zensu_monitoring_agent.Redact.{
  snippet_bytes, truncate, reverse, space_head, space_last, trim, trim_space, printable, sanitize,
  for_log,
}
use zensu_monitoring_agent.Redact.White.{
  IsWhite, no_rune, one_byte, two_bytes, three_bytes, IsWhite-append, reverse-onto, reverse-append,
  reverse_twice, trim_lem, head-Finds, IsWhiteBack, last-Finds,
}

-- What a prefix of a string starts with, the string starts with.
prefix-clean : (x y : Str) → space_head (x ++ y) ≡ 0 → space_head x ≡ 0
unfolding space_head
prefix-clean [] y h = refl
prefix-clean (a ∷ []) [] h = h
prefix-clean (a ∷ []) (b ∷ []) h = ground (arith, h)
prefix-clean (a ∷ []) (b ∷ c ∷ y) h = ground (arith, h)
prefix-clean (a ∷ b ∷ []) [] h = h
prefix-clean (a ∷ b ∷ []) (c ∷ y) h = ground (arith, h)
prefix-clean (a ∷ b ∷ c ∷ x) y h = h

-- The string starts with a white space rune; and it ends with one.
abbrev pub StartsWhite : Str → Type 0
StartsWhite m = (w : Str) × (t : Str) × (m ≡ w ++ t) × IsWhite w × (0 < length w)

abbrev pub EndsWhite : Str → Type 0
EndsWhite m = (w : Str) × (t : Str) × (m ≡ t ++ w) × IsWhite w × (0 < length w)

white-head : (w t : Str) → IsWhite w → 0 < length w → space_head (w ++ t) ≢ 0
unfolding space_head
white-head _ t no_rune n = absurd (omega arith)
white-head _ [] (one_byte a [] e h) n = λ z. ground (arith, e, z)
white-head _ (b ∷ []) (one_byte a [] e h) n = λ z. ground (arith, e, z)
white-head _ (b ∷ c ∷ t) (one_byte a [] e h) n = λ z. ground (arith, e, z)
white-head _ [] (one_byte a (b ∷ []) e h) n = λ z. ground (arith, e, z)
white-head _ (c ∷ t) (one_byte a (b ∷ []) e h) n = λ z. ground (arith, e, z)
white-head _ t (one_byte a (b ∷ c ∷ s) e h) n = λ z. ground (arith, e, z)
white-head _ [] (two_bytes a b [] e h) n = λ z. ground (arith, e, z)
white-head _ (c ∷ t) (two_bytes a b [] e h) n = λ z. ground (arith, e, z)
white-head _ t (two_bytes a b (c ∷ s) e h) n = λ z. ground (arith, e, z)
white-head _ t (three_bytes a b c s e h) n = λ z. ground (arith, e, z)

white-last : (w q : Str) → IsWhite w → 0 < length w → space_last (reverse w q) ≢ 0
unfolding space_last reverse
white-last _ q no_rune n = absurd (omega arith)
white-last _ [] (one_byte a [] e h) n = λ z. ground (arith, e, z)
white-last _ (p ∷ []) (one_byte a [] e h) n = λ z. ground (arith, e, z)
white-last _ (p ∷ r ∷ q) (one_byte a [] e h) n = λ z. ground (arith, e, z)
white-last _ q (one_byte a (b ∷ s) e h) n = white-last (b ∷ s) (a ∷ q) h (omega arith)
white-last _ [] (two_bytes a b [] e h) n = λ z. ground (arith, e, z)
white-last _ (p ∷ q) (two_bytes a b [] e h) n = λ z. ground (arith, e, z)
white-last _ q (two_bytes a b (c ∷ s) e h) n = white-last (c ∷ s) (b ∷ a ∷ q) h (omega arith)
white-last _ q (three_bytes a b c [] e h) n = λ z. ground (arith, e, z)
white-last _ q (three_bytes a b c (d ∷ s) e h) n =
    white-last (d ∷ s) (c ∷ b ∷ a ∷ q) h (omega arith)

not_starting : (m : Str) → space_head m ≡ 0 → ¬ StartsWhite m
not_starting m z (w, t, e, h, n) = white-head w t h n (ap space_head (sym e) ∙ z)

not_ending : (m : Str) → space_last (reverse m []) ≡ 0 → ¬ EndsWhite m
not_ending m z (w, t, e, h, n) =
    white-last w (reverse t []) h n
      (ap space_last (sym (reverse-append t w []) ∙ ap (λ x. reverse x []) (sym e)) ∙ z)

-- The string without white space runes at its two ends.
abbrev pub IsMiddle : Str → Str → Type 0
IsMiddle s m =
    (w : Str) × (t : Str) × (s ≡ w ++ (m ++ t))
    × IsWhite w
    × IsWhite t
    × (¬ StartsWhite m)
    × (¬ EndsWhite m)

IsWhiteBack-append : (x y : Str) → IsWhiteBack x → IsWhiteBack y → IsWhiteBack (x ++ y)
IsWhiteBack-append x y h k =
    subst IsWhite (sym (reverse-append x y [] ∙ reverse-onto y (reverse x [])))
      (IsWhite-append (reverse y []) (reverse x []) k h)

pub trim_space-IsMiddle : (s : Str) → IsMiddle s (trim_space s)
unfolding trim_space reverse
trim_space-IsMiddle s =
    let t = trim space_head (length s) s in
    let back = reverse t [] in
    let u = trim space_last (length t) back in
    let (w, front, white, clean) =
      trim_lem IsWhite space_head no_rune IsWhite-append head-Finds (length s) s (omega arith) in
    let (v, rear, white_back, clean_back) =
      trim_lem IsWhiteBack space_last no_rune IsWhiteBack-append last-Finds (length t) back
        (omega (arith, length-reverse t [])) in
    let whole : t ≡ reverse u [] ++ reverse v [] =
      sym (reverse_twice t [] [] ∙ append-nil t)
      ∙ ap (λ x. reverse x []) rear
      ∙ reverse-append v u []
      ∙ reverse-onto u (reverse v []) in
    (
      w,
      reverse v [],
      front ∙ ap (λ x. w ++ x) whole,
      white,
      white_back,
      not_starting (reverse u [])
          (prefix-clean (reverse u []) (reverse v []) (ap space_head (sym whole) ∙ clean)),
      not_ending (reverse u []) (ap space_last (reverse_twice u [] [] ∙ append-nil u) ∙ clean_back),
    )

-- What `ForLog` leaves of any string: of its first 256 bytes, or all if it has no more, the part between the
-- white space runes with which they begin and those with which they end, of which no more are left at either
-- end, and of that part the bytes that are printable ASCII; these are at most 256.
pub for_log-IsMiddle :
    (s : Str)
    → (m : Str) × IsMiddle (truncate s snippet_bytes) m
      × (for_log s ≡ filter printable m)
      × (length (for_log s) ≤ snippet_bytes)
unfolding for_log sanitize
for_log-IsMiddle s = (
  trim_space (truncate s snippet_bytes),
  trim_space-IsMiddle (truncate s snippet_bytes),
  refl,
  (for_log-printable s).0,
)
