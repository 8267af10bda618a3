-- ===== src/Popup/Dates.antt =====
-- `formatRelativeFromIso`. What `Date` answers is a parameter: how it reads a text (`none` is NaN),
-- the present time, and the local form of a date. Times are whole milliseconds counted from the
-- earliest date that `Date` can hold, so that none is negative; only their differences are used.
use simply_transport.Common.{
  ℕ, ◌+◌, ◌-◌, ◌*◌, ◌/◌, ◌≤◌, ◌<◌, ◌≡◌, Text, units, true, ◌++◌, ltb, ◌==◌, if◌then◌else◌, Option,
  none, some, arith,
}
use simply_transport.Js.Values.{Field, truthy, to_string}
use simply_transport.Js.Decimal.{decimal}

pub record Dates : Type 0 where
  pub parse : Text → Option ℕ
  pub now : ℕ
  pub to_locale : ℕ → Text

-- `Math.floor((now - t) / 60000)`; it is below 1 where `t` lies ahead, and there the truncated
-- difference gives 0.
abbrev pub minutes_since : ℕ → ℕ → ℕ
minutes_since now t = (now - t) / 60000

unfoldable pub relative_label : ℕ → Text
relative_label mins =
    if ltb mins 1
    then units "Less than a minute ago"
    else if mins == 1
    then units "1 min ago"
    else decimal mins ++ units " mins ago"

unfoldable pub format_relative_from_iso : Dates → Field → Text
unfolding relative_label
format_relative_from_iso d iso =
    if truthy iso
    then elim (d.parse (to_string iso)) [
      | none ↦ units ""
      | some t ↦ relative_label (minutes_since d.now t)
    ]
    else units ""

-- A readable time gets the first label until a minute has passed (also where it lies ahead), the
-- second for the minute after that, and from two minutes on a count `n` of whole minutes, with
-- `n` minutes passed and `n + 1` not yet.
pub format_relative_windows :
    (d : Dates) (iso : Field) (t : ℕ)
    → truthy iso ≡ true
    → d.parse (to_string iso) ≡ some t
    → (d.now < t + 60000 → format_relative_from_iso d iso ≡ units "Less than a minute ago")
      × (t + 60000 ≤ d.now
          → d.now < t + 120000
          → format_relative_from_iso d iso ≡ units "1 min ago")
      × (t + 120000 ≤ d.now
          → (n : ℕ) × (format_relative_from_iso d iso ≡ decimal n ++ units " mins ago")
            × (t + n * 60000 ≤ d.now)
            × (d.now < t + (n + 1) * 60000))
unfolding format_relative_from_iso
format_relative_windows d iso t given read =
    rw (given, read)
      (
        λ h. ground arith,
        λ h k. ground arith,
        λ h. (minutes_since d.now t, ground arith, omega arith, omega arith),
      )
