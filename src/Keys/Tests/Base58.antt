-- ===== src/Keys/Tests/Base58.antt =====
-- Base58 as the crate `base58` reads and writes it, to run the text forms of keys.rs on real data.
use lp_0008_logos_agent_modu.Base.{
  ℕ, zero, suc, ◌+◌, ◌*◌, ◌/◌, ◌%◌, Option, none, some, List, [], ◌∷◌, ◌++◌, ◌==◌, if◌then◌else◌,
  length, lit, Text,
}
use lp_0008_logos_agent_modu.Keys.{Base58}

abbrev alphabet : Text
alphabet = lit "123456789ABCDEFGHJKLMNPQRSTUVWXYZabcdefghijkmnopqrstuvwxyz"

-- The number that digits of a base stand for, onto the digits before.
value : ℕ → ℕ → List ℕ → ℕ
value base n [] = n
value base n (d ∷ ds) = value base (n * base + d) ds

-- The digits of a number, onto the digits behind.
digits : ℕ → ℕ → ℕ → List ℕ → List ℕ
digits base zero n ds = ds
digits base (suc f) n ds =
    let more = digits base f (n / base) (n % base ∷ ds) in if n == 0 then ds else more

-- How often a digit leads.
leading : ℕ → List ℕ → List ℕ
leading d [] = []
leading d (c ∷ cs) = let rest = leading d cs in if c == d then d ∷ rest else []

letter : Text → ℕ → ℕ
letter [] n = 0
letter (c ∷ cs) zero = c
letter (c ∷ cs) (suc n) = letter cs n

letters : List ℕ → Text
unfolding letter
letters [] = []
letters (d ∷ ds) = letter alphabet d ∷ letters ds

place : Text → ℕ → Option ℕ
place [] c = none
place (d ∷ ds) c =
    let rest : Option ℕ = elim (place ds c) [ none ↦ none | some n ↦ some (suc n) ] in
    if d == c then some 0 else rest

places : Text → Option (List ℕ)
unfolding place
places [] = some []
places (c ∷ cs) = elim (place alphabet c) [
  | none ↦ none
  | some d ↦ elim (places cs) [ none ↦ none | some ds ↦ some (d ∷ ds) ]
]

unfoldable pub base58 : Base58
unfolding value digits leading letters places
base58 = record {
  encode =
      λ bytes. letters (leading 0 bytes ++ digits 58 (2 * length bytes) (value 256 0 bytes) []);
  decode = λ s. elim (places s) [
    | none ↦ none
    | some ds ↦ some (leading 0 ds ++ digits 256 (length ds) (value 58 0 ds) [])
  ];
}
