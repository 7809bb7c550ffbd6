-- ===== src/AgentCli/JsonStr/Bytes.antt =====
-- A JSON string literal may be read off the UTF-8 bytes of a text.
use lp_0008_logos_agent_modu.Base.{
  ℕ, zero, suc, ◌+◌, ◌*◌, if◌then◌else◌, ◌/◌, ◌%◌, append-nil, sym, ◌≤◌, ◌<◌, ◌≡◌, refl, ap, ◌∙◌,
  Bool, true, false, Option, none, some, [], ◌∷◌, ◌++◌, append_assoc, arith, ◌==◌, Option-cases,
  Bool-cases, inl, inr, ltb, All, Text,
}
use lp_0008_logos_agent_modu.Std.Strings.{utf8_char, as_bytes}
use lp_0008_logos_agent_modu.AgentCli.JsonStr.Decode.{
  Mode, is_first_half, is_second_half, halfway, halfway_u, second, plain, behind, digits, hex_value,
  simple_escape, read, read_plain, read_literal,
}

abbrev pub is_some {ℓ} : {A : Type ℓ} → Option A → Bool
is_some none = false
is_some (some a) = true

abbrev IsWide : Text → Type 0
IsWide = All (λ b. 0x80 ≤ b)

utf8_char_narrow : (c : ℕ) → c < 0x80 → utf8_char c ≡ c ∷ []
unfolding utf8_char
utf8_char_narrow c h = ground arith

utf8_char-IsWide :
    (c : ℕ) → 0x80 ≤ c → (b : ℕ) × (bs : Text) × (utf8_char c ≡ b ∷ bs) × (0x80 ≤ b) × IsWide bs
unfolding utf8_char
utf8_char-IsWide c h = elim (Bool-cases (ltb c 0x800)) [
  | inl e ↦ (0xC0 + c / 64, (0x80 + c % 64) ∷ [], ground arith, omega arith, (omega arith, tt))
  | inr e ↦ elim (Bool-cases (ltb c 0x10000)) [
    | inl f ↦ (
      0xE0 + c / 4096,
      (0x80 + c / 64 % 64) ∷ (0x80 + c % 64) ∷ [],
      ground arith,
      omega arith,
      (omega arith, (omega arith, tt)),
    )
    | inr f ↦ (
      0xF0 + c / 262144,
      (0x80 + c / 4096 % 64) ∷ (0x80 + c / 64 % 64) ∷ (0x80 + c % 64) ∷ [],
      ground arith,
      omega arith,
      (omega arith, (omega arith, (omega arith, tt))),
    )
  ]
]

read-wide : (bs t out : Text) → IsWide bs → read plain (bs ++ t) out ≡ read plain t (out ++ bs)
read-wide [] t out _ = rw append-nil refl
read-wide (b ∷ bs) t out (h, hs) =
    read_plain (bs ++ t) out b (omega arith) (omega arith) (omega arith)
    ∙ read-wide bs t (out ++ b ∷ []) hs
    ∙ ap (read plain t) (append_assoc out (b ∷ []) bs)

read-behind_wide : (b : ℕ) (t out : Text) → 0x80 ≤ b → read behind (b ∷ t) out ≡ none
unfolding read simple_escape
read-behind_wide b t out h = ground arith

read-digits_wide : (k v b : ℕ) (t out : Text) → 0x80 ≤ b → read (digits k v) (b ∷ t) out ≡ none
unfolding read hex_value
read-digits_wide zero v b t out h = ground arith
read-digits_wide (suc k) v b t out h = ground arith

read-plain_narrow :
    (c : ℕ) (s t o p : Text)
    → is_some (read behind s o) ≡ is_some (read behind t p)
    → is_some (read plain s (o ++ c ∷ [])) ≡ is_some (read plain t (p ++ c ∷ []))
    → is_some (read plain (c ∷ s) o) ≡ is_some (read plain (c ∷ t) p)
unfolding read
read-plain_narrow c s t o p h k = ground arith

if-alike :
    (b : Bool) (x y x' y' : Option (Text × Text))
    → is_some x ≡ is_some x'
    → is_some y ≡ is_some y'
    → is_some (if b then x else y) ≡ is_some (if b then x' else y')
if-alike true x y x' y' h k = h
if-alike false x y x' y' h k = k

read-behind_narrow :
    (c : ℕ) (s t o p : Text)
    → is_some (read (digits 3 0) s o) ≡ is_some (read (digits 3 0) t p)
    → ((d : ℕ) → is_some (read plain s (o ++ d ∷ [])) ≡ is_some (read plain t (p ++ d ∷ [])))
    → is_some (read behind (c ∷ s) o) ≡ is_some (read behind (c ∷ t) p)
unfolding read
read-behind_narrow c s t o p h k = elim (Bool-cases (c == b'u')) [
  | inl u ↦ rw u h
  | inr e ↦ elim (Option-cases (simple_escape c)) [
    | inl missing ↦ rw (e, missing) refl
    | inr (d, found) ↦ rw (e, found) (k d)
  ]
]

-- In each mode, two texts that are read alike from any mode on are read alike behind a character.
abbrev Alike : Text → Text → Type 0
Alike s t = (n : Mode) (q r : Text) → is_some (read n s q) ≡ is_some (read n t r)

read-digits_narrow :
    (k v c : ℕ) (s t o p : Text)
    → Alike s t
    → is_some (read (digits k v) (c ∷ s) o) ≡ is_some (read (digits k v) (c ∷ t) p)
unfolding read
read-digits_narrow zero v c s t o p h = elim (Option-cases (hex_value c)) [
  | inl missing ↦ rw (read, missing) refl
  | inr (d, found) ↦
      let n = v * 16 + d in
      rw (read, found)
        (if-alike (is_first_half n) _ _ _ _ (h (halfway n) o p)
          (if-alike (is_second_half n) _ _ _ _ refl (h plain (o ++ n ∷ []) (p ++ n ∷ []))))
]
read-digits_narrow (suc k) v c s t o p h = elim (Option-cases (hex_value c)) [
  | inl missing ↦ rw (read, missing) refl
  | inr (d, found) ↦ rw (read, found) (h (digits k (v * 16 + d)) o p)
]

read-halfway_narrow :
    (n c : ℕ) (s t o p : Text)
    → Alike s t
    → (is_some (read (halfway n) (c ∷ s) o) ≡ is_some (read (halfway n) (c ∷ t) p))
      × (is_some (read (halfway_u n) (c ∷ s) o) ≡ is_some (read (halfway_u n) (c ∷ t) p))
unfolding read
read-halfway_narrow n c s t o p h = (
  if-alike (c == b'\\') _ _ _ _ (h (halfway_u n) o p) refl,
  if-alike (c == b'u') _ _ _ _ (h (second n 3 0) o p) refl,
)

read-second_narrow :
    (n k v c : ℕ) (s t o p : Text)
    → Alike s t
    → is_some (read (second n k v) (c ∷ s) o) ≡ is_some (read (second n k v) (c ∷ t) p)
unfolding read
read-second_narrow n zero v c s t o p h = elim (Option-cases (hex_value c)) [
  | inl missing ↦ rw (read, missing) refl
  | inr (d, found) ↦
      rw (read, found) (if-alike (is_second_half (v * 16 + d)) _ _ _ _ (h plain _ _) refl)
]
read-second_narrow n (suc k) v c s t o p h = elim (Option-cases (hex_value c)) [
  | inl missing ↦ rw (read, missing) refl
  | inr (d, found) ↦ rw (read, found) (h (second n k (v * 16 + d)) o p)
]

read-halfway_wide :
    (n k v b : ℕ) (t out : Text)
    → 0x80 ≤ b
    → (read (halfway n) (b ∷ t) out ≡ none)
      × (read (halfway_u n) (b ∷ t) out ≡ none)
      × (read (second n k v) (b ∷ t) out ≡ none)
unfolding read hex_value
read-halfway_wide n zero v b t out h = (ground arith, ground arith, ground arith)
read-halfway_wide n (suc k) v b t out h = (ground arith, ground arith, ground arith)

read-as_bytes : (m : Mode) (s o p : Text) → is_some (read m (as_bytes s) o) ≡ is_some (read m s p)
unfolding as_bytes read
read-as_bytes plain [] o p = refl
read-as_bytes behind [] o p = refl
read-as_bytes (digits zero v) [] o p = refl
read-as_bytes (digits (suc k) v) [] o p = refl
read-as_bytes (halfway n) [] o p = refl
read-as_bytes (halfway_u n) [] o p = refl
read-as_bytes (second n zero v) [] o p = refl
read-as_bytes (second n (suc k) v) [] o p = refl
read-as_bytes m (c ∷ s) o p = elim (Bool-cases (ltb c 0x80)) [
  | inl e ↦
      rw (utf8_char_narrow c (ground arith))
        (narrow m c (as_bytes s) s o p (λ n q r. read-as_bytes n s q r))
  | inr e ↦ wide m c s o p (ground arith) (λ q r. read-as_bytes plain s q r)
]
  where
    narrow :
        (m : Mode) (c : ℕ) (t s o p : Text)
        → ((n : Mode) (q r : Text) → is_some (read n t q) ≡ is_some (read n s r))
        → is_some (read m (c ∷ t) o) ≡ is_some (read m (c ∷ s) p)
    narrow plain c t s o p ih = read-plain_narrow c t s o p (ih behind _ _) (ih plain _ _)
    narrow behind c t s o p ih =
        read-behind_narrow c t s o p (ih (digits 3 0) _ _) (λ d. ih plain _ _)
    narrow (digits k v) c t s o p ih = read-digits_narrow k v c t s o p ih
    narrow (halfway n) c t s o p ih = (read-halfway_narrow n c t s o p ih).0
    narrow (halfway_u n) c t s o p ih = (read-halfway_narrow n c t s o p ih).1
    narrow (second n k v) c t s o p ih = read-second_narrow n k v c t s o p ih

    wide :
        (m : Mode) (c : ℕ) (s o p : Text)
        → 0x80 ≤ c
        → ((q r : Text) → is_some (read plain (as_bytes s) q) ≡ is_some (read plain s r))
        → is_some (read m (utf8_char c ++ as_bytes s) o) ≡ is_some (read m (c ∷ s) p)
    wide plain c s o p h ih =
        let (b, bs, e, hb, hbs) = utf8_char-IsWide c h in
        rw e (
          ap is_some (read-wide (b ∷ bs) (as_bytes s) o (hb, hbs))
          ∙ ih (o ++ b ∷ bs) (p ++ c ∷ [])
          ∙ ap is_some (sym (read_plain s p c (omega arith) (omega arith) (omega arith))))
    wide behind c s o p h ih =
        let (b, bs, e, hb, hbs) = utf8_char-IsWide c h in
        rw (e, read-behind_wide b _ o hb, read-behind_wide c s p h) refl
    wide (digits k v) c s o p h ih =
        let (b, bs, e, hb, hbs) = utf8_char-IsWide c h in
        rw (e, read-digits_wide k v b _ o hb, read-digits_wide k v c s p h) refl
    wide (halfway n) c s o p h ih =
        let (b, bs, e, hb, hbs) = utf8_char-IsWide c h in
        rw (e, (read-halfway_wide n 0 0 b _ o hb).0, (read-halfway_wide n 0 0 c s p h).0) refl
    wide (halfway_u n) c s o p h ih =
        let (b, bs, e, hb, hbs) = utf8_char-IsWide c h in
        rw (e, (read-halfway_wide n 0 0 b _ o hb).1, (read-halfway_wide n 0 0 c s p h).1) refl
    wide (second n k v) c s o p h ih =
        let (b, bs, e, hb, hbs) = utf8_char-IsWide c h in
        rw (e, (read-halfway_wide n k v b _ o hb).2, (read-halfway_wide n k v c s p h).2) refl

-- The bytes hold a literal if and only if the text does.
pub read_literal-as_bytes :
    (s : Text) → is_some (read_literal (as_bytes s)) ≡ is_some (read_literal s)
unfolding read_literal as_bytes
read_literal-as_bytes [] = refl
read_literal-as_bytes (c ∷ s) = elim (Bool-cases (ltb c 0x80)) [
  | inl e ↦ rw (utf8_char_narrow c (ground arith)) (elim (Bool-cases (c == b'"')) [
    | inl q ↦ rw q (read-as_bytes plain s [] [])
    | inr q ↦ rw q refl
  ])
  | inr e ↦
      let (b, bs, wide, hb, hbs) = utf8_char-IsWide c (ground arith) in
      rw (wide, read_literal) (ground arith)
]
