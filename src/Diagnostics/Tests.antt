-- ===== src/Diagnostics/Tests.antt =====
-- A run of a buffer of two lines.
use api_free_demo.Base.{◌≡◌, List, [], ◌∷◌, Text, codes, pos}
use api_free_demo.Diagnostics.{new_log_buffer, append_all, snapshot}
use api_free_demo.Diagnostics.Recent.{snapshot-latest}

abbrev entries : List Text
entries = codes "first" ∷ codes "second" ∷ codes "third" ∷ []

snapshot-latest_example :
    snapshot (append_all entries (new_log_buffer (pos 2))) ≡ codes "second" ∷ codes "third" ∷ []
snapshot-latest_example = snapshot-latest (pos 2) entries
