-- ===== src/Std/Strings.antt =====
-- Methods of `str` that inspect a text: `starts_with`, `ends_with`, `contains`, `find`, `len` and
-- `as_bytes`.
use lp_0008_logos_agent_modu.Base.{
  ℕ, suc, ◌+◌, ◌/◌, ◌%◌, ◌≡◌, refl, Bool, true, false, ◌&&◌, ◌||◌, Option, none, some, List, [],
  ◌∷◌, ◌++◌, length, arith, ltb, ◌==◌, if◌then◌else◌, Text, All, Lacks, ◌<◌, ◌≤◌, ◌⊎◌,
}

-- `s.starts_with(pat)`, the pattern first.
abbrev pub starts_with : Text → Text → Bool
starts_with [] s = true
starts_with (p ∷ pat) [] = false
starts_with (p ∷ pat) (c ∷ s) = (p == c) && starts_with pat s

abbrev pub starts_with_char : ℕ → Text → Bool
starts_with_char c [] = false
starts_with_char c (d ∷ s) = d == c

abbrev pub ends_with_char : ℕ → Text → Bool
ends_with_char c [] = false
ends_with_char c (d ∷ []) = d == c
ends_with_char c (d ∷ e ∷ s) = ends_with_char c (e ∷ s)

-- `s.contains(pat)`, the pattern first.
unfoldable pub contains : Text → Text → Bool
contains pat [] = starts_with pat []
contains pat (c ∷ s) = starts_with pat (c ∷ s) || contains pat s

-- `s.find(c)`, counted in characters.
unfoldable pub find : ℕ → Text → Option ℕ
find c [] = none
find c (d ∷ s) = if d == c then some 0 else elim (find c s) [ none ↦ none | some i ↦ some (suc i) ]

-- What a `char` can be: no half of a surrogate pair, and below 0x110000.
abbrev pub IsScalar : ℕ → Type 0
IsScalar c = (c < 0xD800) ⊎ ((0xE000 ≤ c) × (c < 0x110000))

-- The UTF-8 bytes of a character, and of a text.
unfoldable pub utf8_char : ℕ → List ℕ
utf8_char c =
    if ltb c 0x80
    then c ∷ []
    else if ltb c 0x800
    then (0xC0 + c / 64) ∷ (0x80 + c % 64) ∷ []
    else if ltb c 0x10000
    then (0xE0 + c / 4096) ∷ (0x80 + c / 64 % 64) ∷ (0x80 + c % 64) ∷ []
    else (0xF0 + c / 262144) ∷ (0x80 + c / 4096 % 64) ∷ (0x80 + c / 64 % 64) ∷ (0x80 + c % 64) ∷ []

unfoldable pub as_bytes : Text → List ℕ
unfolding utf8_char
as_bytes [] = []
as_bytes (c ∷ s) = utf8_char c ++ as_bytes s

-- `s.len()` counts bytes.
unfoldable pub len : Text → ℕ
unfolding as_bytes
len s = length (as_bytes s)

pub find-append : (c : ℕ) (s t : Text) → Lacks c s → find c (s ++ c ∷ t) ≡ some (length s)
unfolding find
find-append c [] t _ = ground arith
find-append c (d ∷ s) t (h, hs) = ground (arith, find-append c s t hs)

pub find-none : (c : ℕ) (s : Text) → Lacks c s → find c s ≡ none
unfolding find
find-none c [] _ = refl
find-none c (d ∷ s) (h, hs) = ground (arith, find-none c s hs)

-- A text of ASCII characters is its own bytes.
pub as_bytes_ascii : (s : Text) → All (λ c. c < 0x80) s → as_bytes s ≡ s
unfolding as_bytes
as_bytes_ascii [] _ = refl
as_bytes_ascii (c ∷ s) (h, hs) = ground (arith, as_bytes_ascii s hs)

pub ends_with_char-append : (c : ℕ) (s : Text) → ends_with_char c (s ++ c ∷ []) ≡ true
ends_with_char-append c [] = ground arith
ends_with_char-append c (d ∷ []) = ground arith
ends_with_char-append c (d ∷ e ∷ s) = ends_with_char-append c (e ∷ s)

starts_with-append : (pat s : Text) → starts_with pat (pat ++ s) ≡ true
starts_with-append [] s = refl
starts_with-append (c ∷ pat) s = ground (arith, starts_with-append pat s)

contains_here : (pat s : Text) → starts_with pat s ≡ true → contains pat s ≡ true
unfolding contains
contains_here pat [] h = h
contains_here pat (c ∷ s) h = ground arith

-- A text is found between any two others.
pub contains-append : (pat s t : Text) → contains pat (s ++ (pat ++ t)) ≡ true
unfolding contains
contains-append pat [] t = contains_here pat (pat ++ t) (starts_with-append pat t)
contains-append pat (c ∷ s) t = ground (arith, contains-append pat s t)

-- What is found in a text is found behind any other.
pub contains-prefix : (pat s t : Text) → contains pat t ≡ true → contains pat (s ++ t) ≡ true
unfolding contains
contains-prefix pat [] t h = h
contains-prefix pat (c ∷ s) t h = ground (arith, contains-prefix pat s t h)
