-- ===== src/Blacklist/Samples.antt =====
-- The theorem about the blacklist with a file that holds the dict itself.
use udroid.Prelude.{
  Option, some, List, [], ◌∷◌, Text, codes, Dict, lookup, contains, if◌then◌else◌, ◌≡◌, refl,
}
use udroid.Blacklist.{Event, devices, Json, read, extend}
use udroid.Blacklist.Extending.{RoundTrips, read-extend}

abbrev json : Json (Dict Event)
json = record { load = λ d. devices d; dump = λ d. d }

abbrev offline : Event
offline = record { timestamp = 5; reason = codes "offline" }

abbrev bad : List Text
bad = codes "a" ∷ codes "b" ∷ []

abbrev before : Option (Dict Event)
before = some ((codes "c", record { timestamp = 1; reason = codes "unknown" }) ∷ [])

json-RoundTrips : RoundTrips json
json-RoundTrips blacklist = refl

read-extend_example :
    lookup (codes "c") (read json (extend json offline bad before)).0
    ≡ (if contains (codes "c") bad then some offline else lookup (codes "c") (read json before).0)
read-extend_example = read-extend json json-RoundTrips offline bad before (codes "c")
