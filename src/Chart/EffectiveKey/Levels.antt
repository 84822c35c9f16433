-- ===== src/Chart/EffectiveKey/Levels.antt =====
-- The first level that holds a key supplies it.
use aurum_presenter.Prelude.{◌≡◌, refl, Option, none, List, [], ◌∷◌, arith, All}
use aurum_presenter.Prelude.Text.{Str}
use aurum_presenter.Chart.EffectiveKey.{
  KeySource, set, preference, arrangement, song, nowhere, KeyInputs, key_at, effective, source_key,
}

key_at-none : key_at none ≡ none
unfolding key_at
key_at-none = refl

-- The text of a level.
abbrev pub level : KeyInputs → KeySource → Option Str
level i set = i.set_override
level i preference = i.preferred
level i arrangement = i.arrangement_default
level i song = i.song_original
level i nowhere = none

-- The levels that are asked before one.
abbrev pub asked_before : KeySource → List KeySource
asked_before set = []
asked_before preference = set ∷ []
asked_before arrangement = set ∷ preference ∷ []
asked_before song = set ∷ preference ∷ arrangement ∷ []
asked_before nowhere = set ∷ preference ∷ arrangement ∷ song ∷ []

-- The key is the one that its source holds, no level asked before the source holds a key, and there
-- is no key only where no level holds one.
pub effective_lem :
    (i : KeyInputs)
    → ((effective i).key ≡ key_at (level i (effective i).source))
      × All (λ l. key_at (level i l) ≡ none) (asked_before (effective i).source)
unfolding effective
effective_lem i = ground (arith, key_at-none)

-- The key that a chart is written in depends on neither the set nor the reader, and is the effective
-- one where neither of them holds a key.
pub source_key_lem :
    (i : KeyInputs)
    → key_at i.set_override ≡ none
    → key_at i.preferred ≡ none
    → source_key i ≡ (effective i).key
unfolding source_key
source_key_lem i p q = ground (arith, key_at-none)
