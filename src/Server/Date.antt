-- ===== src/Server/Date.antt =====
-- src/reactor/server.c: the date of the responses. `gmtime_r` and `strftime` are those of the C library,
-- for times from 1970 on.
use libreactor_refactor.Prelude.{
  ◌>>=◌, ℕ, ◌+◌, ◌-◌, ◌*◌, ◌/◌, ◌%◌, Option, none, some, List, [], ◌∷◌, ◌++◌, take, get_elem?,
  codes, ltb, if◌then◌else◌,
}
use libreactor_refactor.Words.{add64}
use libreactor_refactor.Memory.{Memory, store}
use libreactor_refactor.Http.{cells}

-- `struct tm`; the months are from 0, and the years from 0, not from 1900.
pub record Tm : Type 0 where
  pub second : ℕ
  pub minute : ℕ
  pub hour : ℕ
  pub month_day : ℕ
  pub month : ℕ
  pub year : ℕ
  pub week_day : ℕ

-- The days are counted from the first of March of the year 0, in eras of 400 years.
unfoldable pub gmtime : ℕ → Tm
gmtime t =
    let day = t / 86400 + 719468 in
    let in_era = day % 146097 in
    let era_year = (in_era - in_era / 1460 + in_era / 36524 - in_era / 146096) / 365 in
    let year_day = in_era - (365 * era_year + era_year / 4 - era_year / 100) in
    let from_march = (5 * year_day + 2) / 153 in
    let month = if ltb from_march 10 then from_march + 2 else from_march - 10 in
    let year = era_year + day / 146097 * 400 in
    record {
      second = t % 60;
      minute = t / 60 % 60;
      hour = t / 3600 % 24;
      month_day = year_day - (153 * from_march + 2) / 5 + 1;
      month = month;
      year = if ltb month 2 then year + 1 else year;
      week_day = (t / 86400 + 4) % 7;
    }

abbrev pub two_digits : ℕ → List ℕ
two_digits n = (48 + n / 10 % 10) ∷ (48 + n % 10) ∷ []

-- `strftime` to an array of 30 bytes, the last of them 0: what there is no room for is undefined.
unfoldable pub formatted : Tm → Option (List ℕ)
formatted tm =
    if ltb tm.year 10000
    then some (
        codes "---, "
        ++ (two_digits tm.month_day
            ++ (codes " --- "
                ++ (two_digits (tm.year / 100)
                    ++ (two_digits tm.year
                        ++ (codes " "
                            ++ (two_digits tm.hour
                                ++ (codes ":"
                                    ++ (two_digits tm.minute
                                        ++ (codes ":"
                                            ++ (two_digits tm.second ++ codes " GMT")))))))))))
    else none

abbrev days : List (List ℕ)
days =
    codes "Sun"
    ∷ codes "Mon"
    ∷ codes "Tue"
    ∷ codes "Wed"
    ∷ codes "Thu"
    ∷ codes "Fri"
    ∷ codes "Sat"
    ∷ []

abbrev months : List (List ℕ)
months =
    codes "Jan"
    ∷ codes "Feb"
    ∷ codes "Mar"
    ∷ codes "Apr"
    ∷ codes "May"
    ∷ codes "Jun"
    ∷ codes "Jul"
    ∷ codes "Aug"
    ∷ codes "Sep"
    ∷ codes "Oct"
    ∷ codes "Nov"
    ∷ codes "Dec"
    ∷ []

-- The date at a time in nanoseconds, as `server_date_update` sets it.
unfoldable pub date_at : ℕ → Option Memory
unfolding gmtime formatted store add64
date_at now = do
  let tm = gmtime (add64 now 10_000_000 / 1_000_000_000)
  text ← formatted tm
  day ← get_elem? days tm.week_day
  month ← get_elem? months tm.month
  m1 ← store (cells (text ++ (0 ∷ []))) 0 (cells day)
  m2 ← store m1 8 (cells month)
  some (take 29 m2)
