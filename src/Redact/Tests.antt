-- ===== src/Redact/Tests.antt =====
-- Runs of the redaction.
use zensu_monitoring_agent.Prelude.{◌≡◌, Str, filter, refl, ◌≤◌, [], ◌∷◌, codes, length}
use zensu_monitoring_agent.Redact.{
  take, drop, truncate, reverse, trim, trim_space, space_head, space_last, printable, sanitize,
  for_log, snippet_bytes,
}
use zensu_monitoring_agent.Redact.Trimmed.{IsMiddle, for_log-IsMiddle}

redact : Unit {0}
unfolding take drop truncate reverse trim trim_space space_head space_last printable sanitize
    for_log
redact = tt

for_log_run :
    for_log (0xe2 ∷ 0x80 ∷ 0x83 ∷ b' ' ∷ b'a' ∷ 10 ∷ 0xc3 ∷ b'b' ∷ 0xc2 ∷ 0xa0 ∷ [])
    ≡ b'a' ∷ b'b' ∷ []
unfolding redact
for_log_run = refl

for_log-IsMiddle_example :
    (m : Str) × IsMiddle (truncate (codes "bad\nline") snippet_bytes) m
    × (for_log (codes "bad\nline") ≡ filter printable m)
    × (length (for_log (codes "bad\nline")) ≤ snippet_bytes)
for_log-IsMiddle_example = for_log-IsMiddle (codes "bad\nline")
