-- ===== src/Dedup/Samples.antt =====
-- A cache that meets the laws of `Cache`: its keys with the times at which they expire.
use microservice_wallet_serv.Base.{ℕ, ◌+◌, refl, Bool, false, ltb, List, [], ◌∷◌, if◌then◌else◌}
use microservice_wallet_serv.Base.Text.{Text, same_text}
use microservice_wallet_serv.Dedup.{Cache}

abbrev pub Entries : Type 0
Entries = List (Text × ℕ)

abbrev pub holds_entry : ℕ → Text → Entries → Bool
holds_entry now k [] = false
holds_entry now k ((j, until) ∷ es) = if same_text k j then ltb now until else holds_entry now k es

abbrev pub sample_cache : Cache Entries
sample_cache = record {
  holds = holds_entry;
  set = λ at k timeout es. (k, at + timeout) ∷ es;
  holds-set = λ now at timeout k j es. refl;
}
