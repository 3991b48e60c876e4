-- ===== src/Webhook/Calendar.antt =====
-- The calendar arithmetic of the code is right: it is undone by counting days, and its two versions
-- agree.
use goblin_pay.Prelude.{
  zero, suc, ℕ, ◌+◌, ◌-◌, ◌*◌, ◌/◌, ◌%◌, ◌<◌, ◌≤◌, ◌≡◌, refl, subst, ap, [], ◌∷◌, ◌++◌, Bool, true,
  false, ◌&&◌, &&-true, Bool-cases, inl, inr, if◌then◌else◌, ltb, leb, ◌==◌, arith,
}
use goblin_pay.Webhook.Civil.{
  year_of_era, day_of_year, march_month, day_of_month, calendar_month, civil_from_days, Date,
  zero_padded, format_civil, now_iso8601, format_unix_utc,
}

mod_by_sub : (z : ℕ) → z - z / 146097 * 146097 ≡ z % 146097
mod_by_sub z = omega arith

civil_agree : (days : ℕ) → format_civil days ≡ civil_from_days days
unfolding format_civil civil_from_days
civil_agree days = rw (mod_by_sub (days + 719468))

-- The two formatters of the code write the same text for every second since 1970, zeros in front of short
-- numbers included.
pub format_unix_utc-eq-now_iso8601 : (secs : ℕ) → format_unix_utc secs ≡ now_iso8601 secs
unfolding format_unix_utc now_iso8601
format_unix_utc-eq-now_iso8601 secs =
    ap
      (λ (d : Date).
        let tod = secs % 86400 in
        zero_padded 4 d.year
        ++ b'-'
          ∷ (zero_padded 2 d.month
              ++ b'-'
                ∷ (zero_padded 2 d.day
                    ++ b'T'
                      ∷ (zero_padded 2 (tod / 3600)
                          ++ b':'
                            ∷ (zero_padded 2 ((tod % 3600) / 60)
                                ++ b':' ∷ (zero_padded 2 (tod % 60) ++ b'Z' ∷ []))))))
      (civil_agree (secs / 86400))

-- The days since 1970 of a date, by the calendar that starts its years in March.
pub days_from_civil : ℕ → ℕ → ℕ → ℕ
days_from_civil y m d =
    let y' = if leb m 2 then y - 1 else y in
    let mp = if leb m 2 then m + 9 else m - 3 in
    let yoe = y' % 400 in
    let doy = (153 * mp + 2) / 5 + d - 1 in
    y' / 400 * 146097 + (365 * yoe + yoe / 4 - yoe / 100 + doy) - 719468

-- What holds of the parts of a date on one day of an era.
fits : ℕ → Bool
fits doe =
    let yoe = year_of_era doe in
    let doy = day_of_year doe yoe in
    let mp = march_month doy in
    let d = day_of_month doy mp in
    ltb yoe 400
    && ltb mp 12
    && leb 1 d
    && leb d 31
    && (365 * yoe + yoe / 4 - yoe / 100 + ((153 * mp + 2) / 5 + d - 1) == doe)

fits_below : ℕ → ℕ → Bool
fits_below from zero = true
fits_below from (suc n) = fits (from + n) && fits_below from n

-- The parts of the dates of an era, checked day by day.
table_low : fits_below 0 50000 ≡ true
unfolding fits_below fits
table_low = refl

table_middle : fits_below 50000 50000 ≡ true
unfolding fits_below fits
table_middle = refl

table_high : fits_below 100000 46097 ≡ true
unfolding fits_below fits
table_high = refl

fits_below_sound :
    (from n k : ℕ) → fits_below from n ≡ true → from ≤ k → k < from + n → fits k ≡ true
unfolding fits_below
fits_below_sound from zero k h lo hi = absurd (omega arith)
fits_below_sound from (suc n) k h lo hi =
    let (now, rest) = &&-true (fits (from + n)) _ h in
    elim (Bool-cases (k == from + n)) [
      | inl e ↦ let q : from + n ≡ k = ground arith in subst (λ j. fits j ≡ true) q now
      | inr e ↦ fits_below_sound from n k rest lo (ground arith)
    ]

fits_day : (doe : ℕ) → doe < 146097 → fits doe ≡ true
fits_day doe h = elim (Bool-cases (ltb doe 50000)) [
  | inl e ↦ fits_below_sound 0 50000 doe table_low (omega arith) (ground arith)
  | inr e ↦ elim (Bool-cases (ltb doe 100000)) [
    | inl e' ↦ fits_below_sound 50000 50000 doe table_middle (ground arith) (ground arith)
    | inr e' ↦ fits_below_sound 100000 46097 doe table_high (ground arith) (ground arith)
  ]
]

undo :
    (n era yoe mp d : ℕ)
    → yoe < 400
    → mp < 12
    → 1 ≤ d
    → era * 146097 + (365 * yoe + yoe / 4 - yoe / 100 + ((153 * mp + 2) / 5 + d - 1)) ≡ n + 719468
    → let m = calendar_month mp in
      days_from_civil (if leb m 2 then yoe + era * 400 + 1 else yoe + era * 400) m d ≡ n
unfolding days_from_civil
undo n era yoe mp d hy hm hd e = elim (Bool-cases (ltb mp 10)) [
  | inl t ↦ let f : leb (mp + 3) 2 ≡ false = ground arith in rw (t, f) (omega arith)
  | inr t ↦
      let f : leb (mp - 9) 2 ≡ true = ground arith in
      let g : 9 ≤ mp = ground arith in rw (t, f) (omega (arith, g))
]

parts :
    (yoe mp d x doe : ℕ)
    → (ltb yoe 400 && ltb mp 12 && leb 1 d && leb d 31 && (x == doe)) ≡ true
    → (yoe < 400) × (mp < 12) × (1 ≤ d) × (d ≤ 31) × (x ≡ doe)
parts yoe mp d x doe h = ground arith

month_range : (mp : ℕ) → mp < 12 → (1 ≤ calendar_month mp) × (calendar_month mp ≤ 12)
month_range mp h = ground arith

-- The date of every day since 1970 has a month from 1 to 12 and a day from 1 to 31, and counting the
-- days up to it gives the day back.
pub days_from_civil-civil_from_days :
    (n : ℕ)
    → let c = civil_from_days n in
      (days_from_civil c.year c.month c.day ≡ n)
      × (1 ≤ c.month)
      × (c.month ≤ 12)
      × (1 ≤ c.day)
      × (c.day ≤ 31)
unfolding civil_from_days fits
days_from_civil-civil_from_days n =
    let z = n + 719468 in
    let doe = z % 146097 in
    let yoe = year_of_era doe in
    let mp = march_month (day_of_year doe yoe) in
    let d = day_of_month (day_of_year doe yoe) mp in
    let (hy, hm, hd, hd', e) =
      parts yoe mp d (365 * yoe + yoe / 4 - yoe / 100 + ((153 * mp + 2) / 5 + d - 1)) doe
        (fits_day doe (omega arith)) in
    let (lo, hi) = month_range mp hm in
    (undo n (z / 146097) yoe mp d hy hm hd (rw e (omega arith)), lo, hi, hd, hd')
