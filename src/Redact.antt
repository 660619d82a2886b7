-- ===== src/Redact.antt =====
-- internal/redact/redact.go: what is left of a remote string in a log line.
pub mod Bounds
pub mod Trimmed
pub mod White
mod Tests
use zensu_monitoring_agent.Prelude.{
  ℕ, zero, suc, ◌≡◌, Bool, true, false, not, ◌&&◌, ◌||◌, Option, none, some, List, [], ◌∷◌, ◌++◌,
  Str, if◌then◌else◌, length, ltb, leb, ◌==◌, filter,
}

abbrev pub snippet_bytes : ℕ
snippet_bytes = 256

abbrev pub status_phrase_bytes : ℕ
status_phrase_bytes = 64

-- `s[:n]`
unfoldable pub take : ℕ → Str → Str
take zero s = []
take (suc n) [] = []
take (suc n) (c ∷ s) = c ∷ take n s

-- `s[n:]`
unfoldable pub drop : ℕ → Str → Str
drop zero s = s
drop (suc n) [] = []
drop (suc n) (c ∷ s) = drop n s

unfoldable pub truncate : Str → ℕ → Str
truncate s n = if leb (length s) n then s else take n s

unfoldable pub reverse : Str → Str → Str
reverse [] out = out
reverse (c ∷ s) out = reverse s (c ∷ out)

-- `unicode.IsSpace` of a rune of one, two or three bytes
abbrev pub space_1 : ℕ → Bool
space_1 a = (leb 9 a && leb a 13) || a == 0x20

abbrev pub space_2 : ℕ → ℕ → Bool
space_2 a b = a == 0xc2 && (b == 0x85 || b == 0xa0)

abbrev pub space_3 : ℕ → ℕ → ℕ → Bool
space_3 a b c =
    (a == 0xe1 && b == 0x9a && c == 0x80)
    || (a == 0xe2
        && b == 0x80
        && ((leb 0x80 c && leb c 0x8a) || c == 0xa8 || c == 0xa9 || c == 0xaf))
    || (a == 0xe2 && b == 0x81 && c == 0x9f)
    || (a == 0xe3 && b == 0x80 && c == 0x80)

-- The bytes of the white space rune that a string starts with, and that a reversed one does.
unfoldable pub space_head : Str → ℕ
space_head [] = 0
space_head (a ∷ []) = if space_1 a then 1 else 0
space_head (a ∷ b ∷ []) = if space_1 a then 1 else if space_2 a b then 2 else 0
space_head (a ∷ b ∷ c ∷ s) =
    if space_1 a then 1 else if space_2 a b then 2 else if space_3 a b c then 3 else 0

unfoldable pub space_last : Str → ℕ
space_last [] = 0
space_last (a ∷ []) = if space_1 a then 1 else 0
space_last (b ∷ a ∷ []) = if space_1 b then 1 else if space_2 a b then 2 else 0
space_last (c ∷ b ∷ a ∷ s) =
    if space_1 c then 1 else if space_2 b c then 2 else if space_3 a b c then 3 else 0

-- On fuel: a round that goes on takes off a byte at least.
unfoldable pub trim : (Str → ℕ) → ℕ → Str → Str
trim head zero s = s
trim head (suc f) s =
    let n = head s in let rest = trim head f (drop n s) in if n == 0 then s else rest

-- `strings.TrimSpace`
unfoldable pub trim_space : Str → Str
trim_space s =
    let t = trim space_head (length s) s in reverse (trim space_last (length t) (reverse t [])) []

-- `!(r < 0x20 || r > 0x7e)`; every byte of a rune beyond ASCII is above 0x7e.
unfoldable pub printable : ℕ → Bool
printable r = not (ltb r 0x20 || ltb 0x7e r)

unfoldable pub sanitize : Str → Str
sanitize s = filter printable (trim_space s)

unfoldable pub for_log : Str → Str
for_log s = sanitize (truncate s snippet_bytes)

-- An error of the HTTP client as `TransportReason` reads it: a `*url.Error` with its operation and what
-- the error inside prints, or another error's text.
pub data TransportError : Type 0 where
  url_error : Str → Option Str → TransportError
  other_error : Str → TransportError

unfoldable pub transport_reason : TransportError → Str
transport_reason (url_error op (some reason)) = reason
transport_reason (url_error op none) = op
transport_reason (other_error text) = text
