-- ===== src/Std/Trim.antt =====
-- `str::trim` and `str::trim_end_matches`.
use lp_0008_logos_agent_modu.Base.{
  ap, ℕ, ◌≡◌, [], ◌∷◌, ◌++◌, ◌==◌, leb, if◌then◌else◌, Text, Bool, true, false, ◌&&◌, ◌||◌,
}

-- `char::is_whitespace`, the Unicode property `White_Space`.
abbrev pub is_whitespace : ℕ → Bool
is_whitespace c =
    (leb 9 c && leb c 13)
    || (c == 32)
    || (c == 0x85)
    || (c == 0xA0)
    || (c == 0x1680)
    || (leb 0x2000 c && leb c 0x200A)
    || (c == 0x2028)
    || (c == 0x2029)
    || (c == 0x202F)
    || (c == 0x205F)
    || (c == 0x3000)

module _ (drops : ℕ → Bool) where
  unfoldable pub trim_start_matches : Text → Text
  trim_start_matches [] = []
  trim_start_matches (c ∷ s) = let rest = trim_start_matches s in if drops c then rest else c ∷ s

  -- Puts a character before a text that is trimmed already.
  trim_cons : ℕ → Text → Text
  trim_cons c [] = if drops c then [] else c ∷ []
  trim_cons c (d ∷ s) = c ∷ d ∷ s

  unfoldable pub trim_end_matches : Text → Text
  unfolding trim_cons
  trim_end_matches [] = []
  trim_end_matches (c ∷ s) = trim_cons c (trim_end_matches s)

  pub trim_start_matches_keep :
      (c : ℕ) (s : Text) → drops c ≡ false → trim_start_matches (c ∷ s) ≡ c ∷ s
  unfolding trim_start_matches
  trim_start_matches_keep c s h = rw h

  pub trim_start_matches_drop :
      (c : ℕ) (s : Text) → drops c ≡ true → trim_start_matches (c ∷ s) ≡ trim_start_matches s
  unfolding trim_start_matches
  trim_start_matches_drop c s h = rw h

  -- A text that ends in a character to keep is left as it is.
  pub trim_end_matches_keep :
      (c : ℕ) (s : Text) → drops c ≡ false → trim_end_matches (s ++ c ∷ []) ≡ s ++ c ∷ []
  unfolding trim_end_matches
  trim_end_matches_keep c [] h = rw h
  trim_end_matches_keep c (d ∷ []) h = rw (h, trim_cons)
  trim_end_matches_keep c (d ∷ e ∷ s) h = rw (trim_end_matches_keep c (e ∷ s) h)

  pub trim_end_matches_drop :
      (c d : ℕ) (s : Text)
      → drops c ≡ false
      → drops d ≡ true
      → trim_end_matches (s ++ c ∷ d ∷ []) ≡ s ++ c ∷ []
  unfolding trim_end_matches
  trim_end_matches_drop c d [] h k = rw (k, trim_cons) (rw h)
  trim_end_matches_drop c d (e ∷ []) h k = rw (trim_end_matches_drop c d [] h k)
  trim_end_matches_drop c d (e ∷ f ∷ s) h k = rw (trim_end_matches_drop c d (f ∷ s) h k)

-- `s.trim()`
unfoldable pub trim : Text → Text
unfolding trim_start_matches trim_end_matches
trim s = trim_end_matches is_whitespace (trim_start_matches is_whitespace s)

-- A text that begins and ends with characters to keep is left as it is.
pub trim_keep :
    (c d : ℕ) (s : Text)
    → is_whitespace c ≡ false
    → is_whitespace d ≡ false
    → trim (c ∷ (s ++ d ∷ [])) ≡ c ∷ (s ++ d ∷ [])
unfolding trim
trim_keep c d s h k =
    rw (trim_start_matches_keep is_whitespace c _ h)
      (trim_end_matches_keep is_whitespace d (c ∷ s) k)

pub trim_drop : (c : ℕ) (s : Text) → is_whitespace c ≡ true → trim (c ∷ s) ≡ trim s
unfolding trim
trim_drop c s h = ap (trim_end_matches is_whitespace) (trim_start_matches_drop is_whitespace c s h)
