-- ===== src/Webhook/Civil.antt =====
-- The two calendars of the code: `civil_from_days` of crates/gp-core/src/webhook.rs, and the one
-- inside `format_unix_utc` of crates/gp-server/src/payments.rs, over days since 1970-01-01.
use goblin_pay.Prelude.{
  ℕ, ◌+◌, ◌-◌, ◌*◌, ◌/◌, ◌%◌, ◌^◌, List, [], ◌∷◌, ◌++◌, if◌then◌else◌, ltb, leb,
}
use goblin_pay.Webhook.Amount.{pad, decimal}

pub record Date : Type 0 where
  pub year : ℕ
  pub month : ℕ
  pub day : ℕ

-- Years from March, as the algorithm of Hinnant counts them, from the day of the era.
abbrev pub year_of_era : ℕ → ℕ
year_of_era doe = (doe - doe / 1460 + doe / 36524 - doe / 146096) / 365

abbrev pub day_of_year : ℕ → ℕ → ℕ
day_of_year doe yoe = doe - (365 * yoe + yoe / 4 - yoe / 100)

abbrev pub march_month : ℕ → ℕ
march_month doy = (5 * doy + 2) / 153

abbrev pub day_of_month : ℕ → ℕ → ℕ
day_of_month doy mp = doy - (153 * mp + 2) / 5 + 1

abbrev pub calendar_month : ℕ → ℕ
calendar_month mp = if ltb mp 10 then mp + 3 else mp - 9

unfoldable pub civil_from_days : ℕ → Date
civil_from_days days =
    let z = days + 719468 in
    let era = z / 146097 in
    let doe = z % 146097 in
    let yoe = year_of_era doe in
    let y = yoe + era * 400 in
    let doy = day_of_year doe yoe in
    let mp = march_month doy in
    let m = calendar_month mp in
    record { year = if leb m 2 then y + 1 else y; month = m; day = day_of_month doy mp }

-- The same date by the arithmetic of `format_unix_utc`.
unfoldable pub format_civil : ℕ → Date
format_civil days =
    let z = days + 719468 in
    let era = z / 146097 in
    let doe = z - era * 146097 in
    let yoe = (doe - doe / 1460 + doe / 36524 - doe / 146096) / 365 in
    let y = yoe + era * 400 in
    let doy = doe - (365 * yoe + yoe / 4 - yoe / 100) in
    let mp = (5 * doy + 2) / 153 in
    let d = doy - (153 * mp + 2) / 5 + 1 in
    let m = if ltb mp 10 then mp + 3 else mp - 9 in
    let y' = if leb m 2 then y + 1 else y in record { year = y'; month = m; day = d }

-- `{n:0w}`
abbrev pub zero_padded : ℕ → ℕ → List ℕ
zero_padded w n = if ltb n (10 ^ w) then pad w n else decimal n

-- `now_iso8601` of crates/gp-core/src/webhook.rs, from seconds since 1970
unfoldable pub now_iso8601 : ℕ → List ℕ
unfolding civil_from_days pad decimal
now_iso8601 secs =
    let days = secs / 86400 in
    let tod = secs % 86400 in
    let date = civil_from_days days in
    zero_padded 4 date.year
    ++ b'-'
      ∷ (zero_padded 2 date.month
          ++ b'-'
            ∷ (zero_padded 2 date.day
                ++ b'T'
                  ∷ (zero_padded 2 (tod / 3600)
                      ++ b':'
                        ∷ (zero_padded 2 ((tod % 3600) / 60)
                            ++ b':' ∷ (zero_padded 2 (tod % 60) ++ b'Z' ∷ [])))))

-- `format_unix_utc` of crates/gp-server/src/payments.rs
unfoldable pub format_unix_utc : ℕ → List ℕ
unfolding format_civil pad decimal
format_unix_utc secs =
    let days = secs / 86400 in
    let rem = secs % 86400 in
    let date = format_civil days in
    zero_padded 4 date.year
    ++ b'-'
      ∷ (zero_padded 2 date.month
          ++ b'-'
            ∷ (zero_padded 2 date.day
                ++ b'T'
                  ∷ (zero_padded 2 (rem / 3600)
                      ++ b':'
                        ∷ (zero_padded 2 ((rem % 3600) / 60)
                            ++ b':' ∷ (zero_padded 2 (rem % 60) ++ b'Z' ∷ [])))))
