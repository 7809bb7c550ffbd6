-- ===== src/Std/Replace.antt =====
-- `str::replace`: the matches are found from the left and do not overlap.
use lp_0008_logos_agent_modu.Base.{
  ℕ, zero, suc, ◌-◌, ◌≡◌, refl, [], ◌∷◌, ◌++◌, length, arith, ◌==◌, if◌then◌else◌, Text, Lacks,
  false,
}
use lp_0008_logos_agent_modu.Std.Strings.{starts_with}

-- The number counts the characters of a match that are still to be skipped.
replace_from : Text → Text → ℕ → Text → Text
replace_from pat to k [] = []
replace_from pat to (suc k) (c ∷ s) = replace_from pat to k s
replace_from pat to zero (c ∷ s) =
    let found = to ++ replace_from pat to (length pat - 1) s in
    let kept = c ∷ replace_from pat to 0 s in if starts_with pat (c ∷ s) then found else kept

-- `s.replace(pat, to)` for a pattern that is not empty.
unfoldable pub replace : Text → Text → Text → Text
unfolding replace_from
replace pat to s = replace_from pat to 0 s

module _ (a b : ℕ) (to : Text) where
  -- a pattern of two characters
  pub replace-match :
      (s : Text) → replace (a ∷ b ∷ []) to (a ∷ b ∷ s) ≡ to ++ replace (a ∷ b ∷ []) to s
  unfolding replace
  replace-match s = ground arith

  pub replace-skip :
      (c : ℕ) (s : Text)
      → starts_with (a ∷ b ∷ []) (c ∷ s) ≡ false
      → replace (a ∷ b ∷ []) to (c ∷ s) ≡ c ∷ replace (a ∷ b ∷ []) to s
  unfolding replace
  replace-skip c s h = ground arith

pub replace-nil : (pat to : Text) → replace pat to [] ≡ []
unfolding replace
replace-nil pat to = refl

-- a pattern of one character
pub replace-Lacks : (c : ℕ) (to s : Text) → Lacks c s → replace (c ∷ []) to s ≡ s
unfolding replace
replace-Lacks c to [] _ = refl
replace-Lacks c to (d ∷ s) (h, hs) = ground (arith, replace-Lacks c to s hs)

pub replace_char :
    (c d : ℕ) (to s : Text)
    → replace (c ∷ []) to (d ∷ s)
      ≡ (if d == c then to ++ replace (c ∷ []) to s else d ∷ replace (c ∷ []) to s)
unfolding replace
replace_char c d to s = ground arith
