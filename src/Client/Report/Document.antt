-- ===== src/Client/Report/Document.antt =====
-- Which document the client reports (retro11/coap_client.c, 26-54).
use team.Prelude.{ℕ, suc, ◌+◌, ◌≡◌, Option, none, some, List, [], ◌∷◌, ◌++◌, length, take}
use team.Prelude.Int.{ℤ, pos, negsuc}
use team.Prelude.Text.{codes}
use team.Client.{Text, read}
use team.Client.Entries.{Entries}
use team.Client.Report.{filled}
use team.Senml.{BaseInfo, SenmlRecord}

-- The base info of the game.
abbrev pub base : BaseInfo
base = record {
  version = 5;
  base_name = some (codes "reaction_game");
  base_time = 0;
  base_unit = none;
  base_value = 0;
  base_sum = 0;
}

module _ (stack : List ℕ → List ℕ) (memory : ℕ → SenmlRecord) where
  -- The records of the first n entries, the i-th in the memory of the array's i-th element: what
  -- the client does not set there stays.
  abbrev pub records_of : ℕ → ℕ → List Text → List ℤ → List SenmlRecord
  records_of i (suc n) (name ∷ names) (result ∷ results) =
      filled (memory i) (read stack name) result ∷ records_of (i + 1) n names results
  records_of i _ _ _ = []

-- What the caller gets: the status 0, the document with its NUL, and no entries left; or -1 and the
-- entries as they were.
abbrev pub Reports : Option (List ℕ) → Entries → Option (ℤ × List ℕ × Entries) → Type 0
Reports (some doc) e r =
    (out : List ℕ) × (r ≡ some (pos 0, out, record e { entry_counter = 0 }))
    × (take (length doc + 1) out ≡ doc ++ 0 ∷ [])
Reports none e r = (out : List ℕ) × (r ≡ some (negsuc 0, out, e))
