-- ===== src/Time/Tests.antt =====
-- Times written and read.
use api_free_demo.Base.{◌≡◌, ◌*◌, ◌+◌, refl, none, some, codes}
use api_free_demo.Strings
use api_free_demo.Strings.Decimal
use api_free_demo.Time
use api_free_demo.Time.{second}
use api_free_demo.Time.Calendar.{civil, day}
use api_free_demo.Time.Rfc3339
use api_free_demo.Time.Rfc3339.{format_rfc3339, parse_rfc3339}

leap_day : civil 738944 ≡ (2023, 2, 28)
unfolding civil
leap_day = refl

format-run : format_rfc3339 (738944 * day + 3661 * second + 5) ≡ codes "2023-02-28T01:01:01Z"
unfolding format_rfc3339 civil Strings.Decimal.decimal
format-run = refl

parse-run : parse_rfc3339 (codes "2023-02-28T01:01:01Z") ≡ some (738944 * day + 3661 * second)
unfolding parse_rfc3339 Rfc3339.two_digits Rfc3339.hour_digits Rfc3339.four_digits Rfc3339.at_clock
    Rfc3339.zoned Rfc3339.offset Rfc3339.fraction_from Time.date
parse-run = refl

parse-zone :
    parse_rfc3339 (codes "2023-02-28T3:01:01.5+02:00")
    ≡ some (738944 * day + 3661 * second + 500_000_000)
unfolding parse_rfc3339 Rfc3339.two_digits Rfc3339.hour_digits Rfc3339.four_digits Rfc3339.at_clock
    Rfc3339.zoned Rfc3339.offset Rfc3339.fraction_from Time.date
parse-zone = refl

parse-bad : parse_rfc3339 (codes "2023-02-29T01:01:01Z") ≡ none
unfolding parse_rfc3339 Rfc3339.two_digits Rfc3339.hour_digits Rfc3339.four_digits Rfc3339.at_clock
    Rfc3339.zoned Rfc3339.offset Rfc3339.fraction_from Time.date
parse-bad = refl
