-- ===== src/Prelude/Substrings.antt =====
-- Python's tests on a text and its parts: `in`, `startswith`, `lower` and `split` at the first place.
use Prim.Native.Nat.{ℕ, zero, suc, ◌+◌}
use mathlib.Core.List.{[], ◌∷◌}
use mathlib.Core.Bool.{Bool, true, false, ◌&&◌, ◌||◌}
use mathlib.Core.Option.{Option, none, some}
use udroid.Prelude.Tests.{leb, ◌==◌, if◌then◌else◌}
use udroid.Prelude.Lists.{Text, is_empty}

abbrev pub starts_with : Text → Text → Bool
starts_with [] text = true
starts_with (c ∷ prefix) [] = false
starts_with (c ∷ prefix) (d ∷ text) = c == d && starts_with prefix text

-- `part in text`
abbrev pub is_in : Text → Text → Bool
is_in part [] = is_empty part
is_in part (c ∷ text) = starts_with part (c ∷ text) || is_in part text

abbrev pub lower : Text → Text
lower [] = []
lower (c ∷ text) = (if leb b'A' c && leb c b'Z' then c + 32 else c) ∷ lower text

abbrev pub before : ℕ → Option (Text × Text) → Option (Text × Text)
before c none = none
before c (some (k, v)) = some (c ∷ k, v)

-- `text.split(separator, 1)` where the separator is there.
abbrev pub split_once : ℕ → Text → Option (Text × Text)
split_once separator [] = none
split_once separator (c ∷ text) =
    let rest = split_once separator text in
    if c == separator then some ([], text) else before c rest

abbrev pub end_with : ℕ → ℕ → Text → Text
end_with separator c [] = if c == separator then [] else c ∷ []
end_with separator c (d ∷ text) = c ∷ d ∷ text

-- `text.rstrip(separator)`
abbrev pub rstrip : ℕ → Text → Text
rstrip separator [] = []
rstrip separator (c ∷ text) = end_with separator c (rstrip separator text)

-- `text[n:]`
abbrev pub drop : ℕ → Text → Text
drop zero text = text
drop (suc n) [] = []
drop (suc n) (c ∷ text) = drop n text
