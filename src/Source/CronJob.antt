-- ===== src/Source/CronJob.antt =====
-- pkg/source/builtin/cronjob: the source that fires on a schedule. Texts are lists of bytes.
use kube_trigger.Base.{
  ℕ, ◌≡◌, Bool, true, false, ◌&&◌, ◌||◌, Option, none, some, List, [], ◌∷◌, ◌++◌, arith, ◌==◌,
  if◌then◌else◌,
}

-- `Config` of config.go.
pub record Config : Type 0 where
  pub schedule : List ℕ
  pub time_zone : List ℕ

unfoldable pub has_prefix : List ℕ → List ℕ → Bool
has_prefix [] s = true
has_prefix (p ∷ ps) [] = false
has_prefix (p ∷ ps) (c ∷ cs) = p == c && has_prefix ps cs

-- `strings.Contains`.
unfoldable pub contains : List ℕ → List ℕ → Bool
unfolding has_prefix
contains sub [] = has_prefix sub []
contains sub (c ∷ cs) = has_prefix sub (c ∷ cs) || contains sub cs

abbrev pub tz : List ℕ
tz = b'T' ∷ b'Z' ∷ []

abbrev pub is_empty : List ℕ → Bool
is_empty [] = true
is_empty (c ∷ cs) = false

unfoldable pub to_string : Config → List ℕ
unfolding contains
to_string c =
    if contains tz c.schedule
    then c.schedule
    else if is_empty c.time_zone
    then c.schedule
    else b'T' ∷ b'Z' ∷ b'=' ∷ (c.time_zone ++ b' ' ∷ c.schedule)

unfoldable pub format_schedule : Config → List ℕ
unfolding to_string
format_schedule c = to_string c

-- `CronJob`: its configuration, and what the runner has on its schedule; `S` are parsed schedules.
pub record CronJob (S H : Type 0) : Type 0 where
  pub config : Option Config
  pub scheduled : List (S × H)

unfoldable pub new_cron_job : {S H : Type 0} → CronJob S H
new_cron_job = record { config = none; scheduled = [] }

-- `Init`: `parse` is `cron.ParseStandard`; the properties are parsed already, `none` for an error.
unfoldable pub init :
    {S H : Type 0} → (List ℕ → Option S) → Option Config → H → Option (CronJob S H)
init parse none eh = none
init parse (some c) eh = elim (parse (format_schedule c)) [
  | none ↦ none
  | some s ↦ some (record { config = some c; scheduled = (s, eh) ∷ [] })
]

-- `Run` starts the runner, which stops when the context is cancelled: what is on its schedule then.
unfoldable pub run : {S H : Type 0} → CronJob S H → Bool → List (S × H)
run c cancelled = if cancelled then [] else c.scheduled

-- What the configuration's text is for: once it names a time zone, it stays as it is.
pub to_string_again :
    (c : Config) (zone : List ℕ)
    → is_empty c.time_zone ≡ false
    → to_string (record { schedule = to_string c; time_zone = zone }) ≡ to_string c
unfolding to_string
to_string_again c zone h = ground arith
