-- ===== src/Client/Commands/Words.antt =====
-- client.c: the words of a command that is typed, and its message at the name server.
use docs_plus_plus.Base.{ℕ, ◌≡◌, false, List, [], ◌∷◌, ◌++◌, Text}
use docs_plus_plus.Client.{is_trimmed}

-- A text of one byte or more, none of them blank.
pub data IsWord : Text → Type 0 where
  one : (c : ℕ) → is_trimmed c ≡ false → IsWord (c ∷ [])
  more : (c : ℕ) {w : Text} → is_trimmed c ≡ false → IsWord w → IsWord (c ∷ w)

-- One word or more.
pub data AreWords : List Text → Type 0 where
  single : {w : Text} → IsWord w → AreWords (w ∷ [])
  several : {w : Text} {ws : List Text} → IsWord w → AreWords ws → AreWords (w ∷ ws)

-- The words with a space between each two.
unfoldable pub spaced : List Text → Text
spaced [] = []
spaced (w ∷ []) = w
spaced (w ∷ v ∷ ws) = w ++ b' ' ∷ spaced (v ∷ ws)
