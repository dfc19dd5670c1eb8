-- ===== src/Storage/Tests.antt =====
-- Concrete tables, and the theorems of the storage modules at them.
use mathlib.Core.List.{foldl}
use cloister.Prelude.{ℕ, ◌≡◌, String, List, [], ◌∷◌}
use cloister.Prelude.Keys.{string_eq, nat_eq, pair_eq}
use cloister.Prelude.Results.{ok}
use cloister.Storage.SeenNonces.Replay.{Request, answers, first_sightings, fresh_iff_first}
use cloister.Storage.PeerLeaseCounters.{Counters}
use cloister.Storage.PeerLeaseCounters.Chain.{
  Observation, position, extend, observe_all, observe_all_lem,
}
use cloister.Storage.PeerReceipts.{direction_eq}

-- The second request repeats the first, with a later time.
abbrev requests : List Request
requests = (("cert", "n1"), 10) ∷ (("cert", "n1"), 20) ∷ (("cert", "n2"), 30) ∷ []

fresh_iff_first_example : answers [] requests ≡ first_sightings [] requests
fresh_iff_first_example = fresh_iff_first requests

-- A digest of one byte, that tells texts apart by nothing.
abbrev digest : String → List ℕ
digest text = 171 ∷ []

abbrev observations : List Observation
observations =
    record { peer = "p"; cert = "c1"; nonce = "n1"; ts = 1 }
    ∷ record { peer = "q"; cert = "c2"; nonce = "n2"; ts = 2 }
    ∷ record { peer = "p"; cert = "c1"; nonce = "n3"; ts = 3 }
    ∷ []

observe_all_example :
    (sql' : Counters) × (observe_all digest [] observations ≡ ok sql')
    × ((p : String) → position sql' p ≡ foldl (extend digest p) (position [] p) observations)
observe_all_example = observe_all_lem digest [] observations
