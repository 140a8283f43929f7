-- ===== src/Diagnostics.antt =====
-- The buffer of recent log lines: internal/app/diagnostics/logbuffer.go. Its lock makes each
-- operation one step.
pub mod Recent
mod Tests
use api_free_demo.Base.{
  ℕ, List, [], ◌∷◌, ◌++◌, Text, ℤ, pos, negsuc, zero, suc, length, drop, leb, if◌then◌else◌,
}

pub record LogBuffer : Type 0 where
  pub lines : List Text
  pub cap : ℕ

abbrev pub or_default : ℤ → ℕ
or_default (pos zero) = 100
or_default (pos (suc n)) = suc n
or_default (negsuc n) = 100

-- `NewLogBuffer`
unfoldable pub new_log_buffer : ℤ → LogBuffer
new_log_buffer limit = record { lines = []; cap = or_default limit }

-- `b.data[1:]` where the buffer is full
abbrev pub make_room : LogBuffer → List Text
make_room b = if leb b.cap (length b.lines) then drop 1 b.lines else b.lines

-- `Append`
unfoldable pub append : Text → LogBuffer → LogBuffer
append entry b = record b { lines = make_room b ++ entry ∷ [] }

-- `Snapshot`
unfoldable pub snapshot : LogBuffer → List Text
snapshot b = b.lines

unfoldable pub append_all : List Text → LogBuffer → LogBuffer
unfolding append
append_all [] b = b
append_all (e ∷ es) b = append_all es (append e b)
