-- ===== src/Builder/Times.antt =====
-- The clock of timer.c, and the parts of builder.c that print a time.
use mukite.Common.{
  ℕ, ◌+◌, ◌-◌, ◌*◌, ◌/◌, ◌%◌, Bool, true, false, [], ◌∷◌, ◌++◌, Bytes, lit, length, take, drop,
  ◌==◌, leb, ltb, if◌then◌else◌, ok,
}
use mukite.Buffer.{word}
use mukite.Builder.{Push, push, ◌>>◌, skip, digits_before}

-- `timer_config`, and what the standard library gives for "%z" in the zone the process runs in.
pub record Clock : Type 0 where
  pub start : ℕ
  pub ticks : ℕ
  pub zone : Bytes

-- `timer_ticks() / TIMER_RESOLUTION`, of a word of 32 bits: division is towards 0.
unfoldable pub uptime : Clock → ℕ
uptime c = if ltb c.ticks 2147483648 then c.ticks / 10 else (word - (word - c.ticks) / 10) % word

-- `timer_time()`; the counter is not negative.
unfoldable pub timer_time : Clock → ℕ
timer_time c = c.start + c.ticks / 10

-- The fields of a `struct tm` that are printed.
pub record Tm : Type 0 where
  pub year : ℕ
  pub month : ℕ
  pub day : ℕ
  pub hour : ℕ
  pub minute : ℕ
  pub second : ℕ

-- The days since the first of March of the year 0 as a date: the year of the era of 400 years, the
-- day of that year, and the month counted from March.
unfoldable pub date_of : ℕ → ℕ → Tm
date_of days clock =
    let era = days / 146097 in
    let doe = days % 146097 in
    let yoe = (doe + doe / 36524 - doe / 1460 - doe / 146096) / 365 in
    let doy = doe + yoe / 100 - yoe * 365 - yoe / 4 in
    let mp = (doy * 5 + 2) / 153 in
    record {
      year = yoe + era * 400 + (if leb 10 mp then 1 else 0);
      month = if leb 10 mp then mp - 9 else mp + 3;
      day = doy - (mp * 153 + 2) / 5 + 1;
      hour = clock / 3600;
      minute = clock % 3600 / 60;
      second = clock % 60;
    }

-- `gmtime_r`
unfoldable pub gmtime : ℕ → Tm
gmtime t = date_of (t / 86400 + 719468) (t % 86400)

abbrev pub two_digits : ℕ → Bytes
two_digits n = (b'0' + n / 10) ∷ (b'0' + n % 10) ∷ []

-- "%Y-%m-%dT%T", or "%Y%m%dT%T".
unfoldable pub stamp : Bool → Tm → Bytes
stamp utc_mark t =
    let dash = if utc_mark then lit "-" else [] in
    digits_before 10 t.year (
      dash
      ++ (two_digits t.month
          ++ (dash
              ++ (two_digits t.day
                  ++ (b'T'
                      ∷ (two_digits t.hour
                          ++ (b':' ∷ (two_digits t.minute ++ (b':' ∷ two_digits t.second)))))))))

-- `strftime` into the room that is left, where the text must be followed by a null byte. It returns
-- 0, if there is no room for that.
unfoldable pub push_time : Bytes → Push
push_time shown b =
    if ltb (length b.text + length shown) b.size
    then ok (record b { text = b.text ++ shown }, true)
    else ok (b, false)

-- `build_strftime`
unfoldable pub build_strftime : ℕ → Bool → Push
build_strftime t utc_mark =
    push_time (stamp utc_mark (gmtime t)) >> (if utc_mark then push (lit "Z") else skip)

-- +0300 becomes +03:00
unfoldable pub tzo : Bytes → Bytes
tzo zone = if length zone == 5 then take 3 zone ++ (b':' ∷ drop 3 zone) else zone

-- `build_iq_time`
unfoldable pub build_iq_time : Clock → Push
build_iq_time c =
    push (lit "<tzo>")
    >> push (tzo c.zone)
    >> push (lit "</tzo><utc>")
    >> build_strftime (timer_time c) true
    >> push (lit "</utc>")
