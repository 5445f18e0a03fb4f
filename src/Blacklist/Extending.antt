-- ===== src/Blacklist/Extending.antt =====
-- What is read of a blacklist that was extended.
use udroid.Prelude.{
  Bool, true, false, ◌||◌, Option, some, List, [], ◌∷◌, Text, Dict, lookup, insert, lookup-insert,
  contains, text_eq, if◌then◌else◌, ◌≡◌, refl, ap, ◌∙◌,
}
use udroid.Blacklist.{Event, devices, Json, File, read, write, updated, extend}

module _ {Content : Type 0} (json : Json Content) where
  lookup-updated :
      (event : Event) (bad : List Text) (blacklist : Dict Event) (device : Text)
      → lookup device (updated json event bad blacklist)
        ≡ (if contains device bad then some event else lookup device blacklist)
  lookup-updated event [] blacklist device = refl
  lookup-updated event (d ∷ bad) blacklist device =
      lookup-updated event bad (insert d event blacklist) device
      ∙ ap (λ (m : Option Event). if contains device bad then some event else m)
          (lookup-insert device d event blacklist)
      ∙ either (text_eq device d) (contains device bad)
    where
      either :
          (b c : Bool)
          → (if c then some event else if b then some event else lookup device blacklist)
            ≡ (if b || c then some event else lookup device blacklist)
      either true true = refl
      either true false = refl
      either false c = refl

  -- What json.dump has written, json.load reads.
  abbrev pub RoundTrips : Type 0
  RoundTrips = (blacklist : Dict Event) → json.load (json.dump blacklist) ≡ devices blacklist

  -- Where json.load reads what json.dump has written: a blacklist that was extended is read, and has
  -- for each of the bad devices the event, and for any other device what was read before, nothing at all
  -- where the file was missing, not readable or no dict.
  pub read-extend :
      RoundTrips
      → (event : Event) (bad : List Text) (file : File json) (device : Text)
      → lookup device (read json (extend json event bad file)).0
        ≡ (if contains device bad then some event else lookup device (read json file).0)
  unfolding read extend write
  read-extend round event bad file device =
      rw (round (updated json event bad (read json file).0))
        (lookup-updated event bad (read json file).0 device)
