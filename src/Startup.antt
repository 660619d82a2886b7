-- ===== src/Startup.antt =====
-- cmd/zensu-monitoring-agent/main.go: how `run` reads the environment, what it refuses, and what it starts.
-- `url.Parse`, `time.ParseDuration`, `slog.Level.UnmarshalText`, the conversion of the interval to an int32 and
-- the Kubernetes client's constructor are parameters.
pub mod Start
pub mod Settings
pub mod Numbers
pub mod Cap
pub mod Checks
pub mod Modes
pub mod Ends
pub mod Process
pub mod Names
mod Tests
use zensu_monitoring_agent.Prelude.{
  ℕ, ◌+◌, ◌*◌, ◌≡◌, Bool, true, false, not, ◌&&◌, ◌||◌, Option, none, some, is_some, List, [], ◌∷◌,
  Str, codes, eqb, is_empty, if◌then◌else◌, ◌-◌, map, ltb, leb, ◌==◌,
}
use zensu_monitoring_agent.Prelude.Int.{ℤ, pos, ltb_ℤ, sub_ℕ}
use zensu_monitoring_agent.Redact.{trim_space}
use zensu_monitoring_agent.Scrape.Decode.{default_timeout}
use zensu_monitoring_agent.Metrics.{Metrics, new_metrics, default_addr}
use zensu_monitoring_agent.Agent.Exposition.{default_slug_label}
use zensu_monitoring_agent.Agent.Source.{
  source_auto, source_exposition, ParsedUrl, UrlError, validate_url, Built, new_metric_source,
}
use zensu_monitoring_agent.Agent.Collect.{Config}
use zensu_monitoring_agent.Agent.Reporter.{Reporter, new_reporter, validate_api_url}

-- `os.Getenv`: an unset variable is the empty string.
abbrev pub Env : Type 0
Env = Str → Str

unfoldable pub env_or : Env → Str → Str → Str
env_or env key def = if is_empty (env key) then def else env key

-- `strings.ToLower`, as far as the words below can tell: the two runes beyond ASCII that it maps to ASCII
-- letters give k and i, which no word has.
abbrev pub lower_byte : ℕ → ℕ
lower_byte c = if leb b'A' c && leb c b'Z' then c + 32 else c

abbrev pub to_lower : Str → Str
to_lower s = map lower_byte s

unfoldable pub env_bool : Env → Str → Bool → Bool
env_bool env key def =
    let word = to_lower (trim_space (env key)) in
    if is_empty word
    then def
    else eqb word (codes "1")
      || eqb word (codes "true")
      || eqb word (codes "yes")
      || eqb word (codes "on")

-- `v` if there is no error and it is positive.
abbrev pub positive_or : ℤ → Option ℤ → ℤ
positive_or def none = def
positive_or def (some v) = if ltb_ℤ (pos 0) v then v else def

-- The decimal digits of a number that a prefix has started; `none` is a syntax error.
unfoldable pub parse_digits : ℕ → Str → Option ℕ
parse_digits n [] = some n
parse_digits n (c ∷ s) =
    let rest = parse_digits (n * 10 + (c - b'0')) s in
    if leb b'0' c && leb c b'9' then rest else none

-- `strconv.ParseUint(s, 10, 64)`, before the range is checked
abbrev pub parse_uint : Str → Option ℕ
parse_uint [] = none
parse_uint (c ∷ s) = parse_digits 0 (c ∷ s)

abbrev pub up_to : ℕ → Option ℕ → Option ℕ
up_to bound none = none
up_to bound (some n) = if leb n bound then some n else none

abbrev pub negated : Option ℕ → Option ℤ
negated none = none
negated (some n) = some (sub_ℕ 0 n)

abbrev pub as_int : Option ℕ → Option ℤ
as_int none = none
as_int (some n) = some (pos n)

-- `strconv.ParseInt(s, 10, 64)`; `none` is an error, of syntax or of range.
unfoldable pub parse_int : Str → Option ℤ
parse_int [] = none
parse_int (c ∷ s) =
    if c == b'-'
    then negated (up_to 9223372036854775808 (parse_uint s))
    else as_int (up_to 9223372036854775807 (parse_uint (if c == b'+' then s else c ∷ s)))

unfoldable pub env_int64 : Env → Str → ℤ → ℤ
env_int64 env key def = if is_empty (env key) then def else positive_or def (parse_int (env key))

unfoldable pub env_duration : (Str → Option ℤ) → Env → Str → ℤ → ℤ
env_duration parse_duration env key def =
    if is_empty (env key) then def else positive_or def (parse_duration (env key))

abbrev pub prepend : ℕ → List Str → List Str
prepend c [] = (c ∷ []) ∷ []
prepend c (p ∷ ps) = (c ∷ p) ∷ ps

-- `strings.Split`, with a separator of one byte
unfoldable pub split : ℕ → Str → List Str
split sep [] = [] ∷ []
split sep (c ∷ s) = let rest = split sep s in if c == sep then [] ∷ rest else prepend c rest

-- The pieces trimmed, without the empty ones.
unfoldable pub trimmed : List Str → List Str
trimmed [] = []
trimmed (p ∷ ps) =
    let out = trimmed ps in if is_empty (trim_space p) then out else trim_space p ∷ out

abbrev pub or_default : List Str → List Str → List Str
or_default def [] = def
or_default def (p ∷ ps) = p ∷ ps

unfoldable pub env_list : Env → Str → List Str → List Str
env_list env key def =
    if is_empty (env key) then def else or_default def (trimmed (split b',' (env key)))

-- `slog.LevelInfo`
abbrev pub level_info : ℤ
level_info = pos 0

abbrev pub or_info : Option ℤ → ℤ
or_info none = level_info
or_info (some level) = level

unfoldable pub env_log_level : (Str → Option ℤ) → Env → ℤ
env_log_level unmarshal_level env =
    let raw = env (codes "ZENSU_MONITORING_AGENT_LOG_LEVEL") in
    if is_empty raw then level_info else or_info (unmarshal_level raw)
