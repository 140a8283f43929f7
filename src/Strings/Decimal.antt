-- ===== src/Strings/Decimal.antt =====
-- Decimal numerals: `fmt.Sprintf("%d", n)`.
use api_free_demo.Base.{ℕ, ◌+◌, ◌/◌, ◌%◌, zero, suc, [], ◌∷◌, ◌++◌, Text, ltb, if◌then◌else◌}

-- The last digits of a number, as many as there are, up to the given number of them
unfoldable pub last_digits : ℕ → ℕ → Text
last_digits zero n = []
last_digits (suc k) n =
    let rest = last_digits k (n / 10) in
    if ltb n 10 then (n + b'0') ∷ [] else rest ++ (n % 10 + b'0') ∷ []

-- A number of 64 bits has 20 digits at most.
unfoldable pub decimal : ℕ → Text
unfolding last_digits
decimal n = last_digits 20 n
