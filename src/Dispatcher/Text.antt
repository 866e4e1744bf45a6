-- ===== src/Dispatcher/Text.antt =====
-- `needle in text.lower()` for an ASCII needle: no other character lowers to ASCII letters of the
-- three needles that the program looks for.
use gektar_monitor.Prelude.{
  ℕ, ◌+◌, String, codes, Bool, true, false, ◌&&◌, ◌||◌, List, [], ◌∷◌, map, leb, ◌==◌,
  if◌then◌else◌,
}

lower : ℕ → ℕ
lower c = if leb b'A' c && leb c b'Z' then c + 32 else c

starts_with : List ℕ → List ℕ → Bool
starts_with [] text = true
starts_with (c ∷ cs) [] = false
starts_with (c ∷ cs) (d ∷ ds) = c == d && starts_with cs ds

occurs : List ℕ → List ℕ → Bool
occurs needle [] = starts_with needle []
occurs needle (c ∷ text) = starts_with needle (c ∷ text) || occurs needle text

unfoldable pub has_text : String → String → Bool
unfolding lower starts_with occurs
has_text needle text = occurs (codes needle) (map lower (codes text))
