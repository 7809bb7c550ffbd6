-- ===== src/Provider/Programs/Meant.antt =====
-- What the arguments of `program_call` of provider.rs stand for, said without its parsers.
use mathlib.Core.Path.{subst}
use lp_0008_logos_agent_modu.Base.{
  Result-cases, Option-cases, ℕ, ◌%◌, ◌<◌, ◌≡◌, refl, sym, ap, ◌∙◌, ◌⊎◌, inl, inr, none, some, List,
  [], ◌∷◌, ◌++◌, arith, length, replicate, All, Result, ok, Text, lit,
}
use lp_0008_logos_agent_modu.Keys.{Bytes, AreBytes}
use lp_0008_logos_agent_modu.Provider.Crates.{Json, HexCodec, Identity, Wallet}
use lp_0008_logos_agent_modu.Provider.{ProviderError}
use lp_0008_logos_agent_modu.Provider.Storage.{and_then, array_at}
use lp_0008_logos_agent_modu.Provider.Storage.First.{and_then-some}
use lp_0008_logos_agent_modu.Provider.Programs.{
  u32_mod, words_of_bytes, bytes_of_words, parse_program_id, parse_account, parse_word, collect,
  parse_accounts, parse_instruction, signing_keys,
}

-- The little-endian bytes of the words are these bytes, with zeros up to the end of the last word.
abbrev pub AreWordsOf : Bytes → List ℕ → Type 0
AreWordsOf bytes words =
    (k : ℕ) × (k < 4)
    × (bytes_of_words words ≡ bytes ++ replicate k 0)
    × All (λ n. n < u32_mod) words

four :
    {a b c d a' b' c' d' : ℕ} {t t' : List ℕ}
    → a' ≡ a
    → b' ≡ b
    → c' ≡ c
    → d' ≡ d
    → t' ≡ t
    → a' ∷ b' ∷ c' ∷ d' ∷ t' ≡ a ∷ b ∷ c ∷ d ∷ t
four h k l m n = cc

words_of_bytes-AreWordsOf :
    (bytes : Bytes) → AreBytes bytes → AreWordsOf bytes (words_of_bytes bytes)
unfolding words_of_bytes bytes_of_words
words_of_bytes-AreWordsOf [] h = (0, omega arith, refl, tt)
words_of_bytes-AreWordsOf (a ∷ []) (ha, _) = (
  3,
  omega arith,
  four (omega arith) (omega arith) (omega arith) (omega arith) refl,
  (omega arith, tt),
)
words_of_bytes-AreWordsOf (a ∷ b ∷ []) (ha, (hb, _)) = (
  2,
  omega arith,
  four (omega arith) (omega arith) (omega arith) (omega arith) refl,
  (omega arith, tt),
)
words_of_bytes-AreWordsOf (a ∷ b ∷ c ∷ []) (ha, (hb, (hc, _))) = (
  1,
  omega arith,
  four (omega arith) (omega arith) (omega arith) (omega arith) refl,
  (omega arith, tt),
)
words_of_bytes-AreWordsOf (a ∷ b ∷ c ∷ d ∷ bytes) (ha, (hb, (hc, (hd, h)))) =
    let (k, small, same, fits) = words_of_bytes-AreWordsOf bytes h in
    (
      k,
      small,
      four (omega arith) (omega arith) (omega arith) (omega arith) same,
      (omega arith, fits),
    )

-- The id has 32 bytes in hexadecimal, and they are the words of the program.
abbrev pub IsProgramId : HexCodec → Text → List ℕ → Type 0
IsProgramId hex program_id words =
    (bytes : Bytes) × (hex.decode program_id ≡ ok bytes)
    × (length bytes ≡ 32)
    × (AreBytes bytes → AreWordsOf bytes words)

pub parse_program_id-IsProgramId :
    (hex : HexCodec) (program_id : Text) {words : List ℕ}
    → parse_program_id hex program_id ≡ ok words
    → IsProgramId hex program_id words
unfolding parse_program_id
parse_program_id-IsProgramId hex program_id {words} h =
    elim (Result-cases (hex.decode program_id)) [
      | inr (e, refused) ↦ absurd (ground arith)
      | inl (bytes, decoded) ↦
          let full : length bytes ≡ 32 = ground arith in
          let same : words_of_bytes bytes ≡ words = ground arith in
          (
            bytes,
            decoded,
            full,
            λ small. subst (AreWordsOf bytes) same (words_of_bytes-AreWordsOf bytes small),
          )
    ]

module _ (j : Json) where
  -- Below the key stands no array, or no text.
  abbrev pub LacksArray : Text → j.Value → Type 0
  LacksArray key params = (v : j.Value) → j.get key params ≡ some v → j.as_array v ≡ none

  abbrev pub LacksText : Text → j.Value → Type 0
  LacksText key params = (v : j.Value) → j.get key params ≡ some v → j.as_str v ≡ none

  abbrev pub HasArray : Text → j.Value → List j.Value → Type 0
  HasArray key params vs = (v : j.Value) × (j.get key params ≡ some v) × (j.as_array v ≡ some vs)

  -- Item by item.
  abbrev pub Each : {A : Type 0} → (j.Value → A → Type 0) → List j.Value → List A → Type 0
  Each R [] [] = Unit
  Each R [] (a ∷ as') = ⊥
  Each R (v ∷ vs) [] = ⊥
  Each R (v ∷ vs) (a ∷ as') = R v a × Each R vs as'

  -- A number, of which the low 32 bits are taken.
  abbrev pub IsWord : j.Value → ℕ → Type 0
  IsWord v n = (m : ℕ) × (j.as_u64 v ≡ some m) × (n ≡ m % u32_mod)

module _ (j : Json) (hex : HexCodec) (i : Identity) where
  -- A text that is read as an account.
  abbrev pub IsAccount : j.Value → i.AccountId → Type 0
  IsAccount v id = (s : Text) × (j.as_str v ≡ some s) × (i.parse s ≡ ok id)

  -- The accounts of the parameters, or the caller where they name none.
  abbrev pub AreAccounts : i.AccountId → j.Value → List i.AccountId → Type 0
  AreAccounts caller_id params ids =
      ((vs : List j.Value) × HasArray j (lit "accounts") params vs × Each j IsAccount vs ids)
      ⊎ (LacksArray j (lit "accounts") params × (ids ≡ caller_id ∷ []))

  -- The words of the instruction, or those of its bytes, or none.
  abbrev pub AreInstruction : j.Value → List ℕ → Type 0
  AreInstruction params words =
      ((vs : List j.Value) × HasArray j (lit "instruction_words") params vs
        × Each j (IsWord j) vs words)
      ⊎ (LacksArray j (lit "instruction_words") params
          × (((v : j.Value) × (s : Text) × (bytes : Bytes) × (j.get (lit "instruction_hex") params
                  ≡ some v)
                × (j.as_str v ≡ some s)
                × (hex.decode s ≡ ok bytes)
                × (AreBytes bytes → AreWordsOf bytes words))
              ⊎ (LacksText j (lit "instruction_hex") params × (words ≡ []))))

  collect-Each :
      {A : Type 0} (f : j.Value → Result A ProviderError) (R : j.Value → A → Type 0)
      → ((v : j.Value) (a : A) → f v ≡ ok a → R v a)
      → (vs : List j.Value) (as' : List A) → collect j hex i f vs ≡ ok as'
      → Each j R vs as'
  unfolding collect
  collect-Each f R each [] [] h = tt
  collect-Each f R each [] (a ∷ as') h = absurd (cc)
  collect-Each f R each (v ∷ vs) as' h = elim (Result-cases (f v)) [
    | inr (e, failed) ↦ absurd (ground arith)
    | inl (a, first) ↦ elim (Result-cases (collect j hex i f vs)) [
      | inr (e, failed) ↦ absurd (ground arith)
      | inl (rest, more) ↦
          let same : a ∷ rest ≡ as' = ground arith in
          subst (Each j R (v ∷ vs)) same (each v a first, collect-Each f R each vs rest more)
    ]
  ]

  parse_account-IsAccount :
      (v : j.Value) (id : i.AccountId) → parse_account j hex i v ≡ ok id → IsAccount v id
  unfolding parse_account
  parse_account-IsAccount v id h = elim (Option-cases (j.as_str v)) [
    | inl missing ↦ absurd (ground arith)
    | inr (s, found) ↦ (s, found, ground arith)
  ]

  parse_word-IsWord : (v : j.Value) (n : ℕ) → parse_word j hex i v ≡ ok n → IsWord j v n
  unfolding parse_word
  parse_word-IsWord v n h = elim (Option-cases (j.as_u64 v)) [
    | inl missing ↦ absurd (ground arith)
    | inr (m, found) ↦ (m, found, ground arith)
  ]

  array_at-HasArray :
      (key : Text) (params : j.Value) {vs : List j.Value}
      → array_at j key (some params) ≡ some vs
      → HasArray j key params vs
  array_at-HasArray key params h = and_then-some (j.get key params) (λ a. j.as_array a) h

  array_at-LacksArray :
      (key : Text) (params : j.Value)
      → array_at j key (some params) ≡ none
      → LacksArray j key params
  array_at-LacksArray key params h v found =
      ap (λ o. and_then o (λ a. j.as_array a)) (sym found) ∙ h

  pub parse_accounts-AreAccounts :
      (caller_id : i.AccountId) (params : j.Value) {ids : List i.AccountId}
      → parse_accounts j hex i caller_id params ≡ ok ids
      → AreAccounts caller_id params ids
  unfolding parse_accounts
  parse_accounts-AreAccounts caller_id params {ids} h =
      elim (Option-cases (array_at j (lit "accounts") (some params))) [
        | inl missing ↦ inr (array_at-LacksArray (lit "accounts") params missing, ground arith)
        | inr (vs, found) ↦ inl (
          vs,
          array_at-HasArray (lit "accounts") params found,
          collect-Each (parse_account j hex i) IsAccount parse_account-IsAccount vs ids
              (ground arith),
        )
      ]

  pub parse_instruction-AreInstruction :
      (params : j.Value) {words : List ℕ}
      → parse_instruction j hex i params ≡ ok words
      → AreInstruction params words
  unfolding parse_instruction
  parse_instruction-AreInstruction params {words} h =
      elim (Option-cases (array_at j (lit "instruction_words") (some params))) [
        | inr (vs, found) ↦ inl (
          vs,
          array_at-HasArray (lit "instruction_words") params found,
          collect-Each (parse_word j hex i) (IsWord j) parse_word-IsWord vs words (ground arith),
        )
        | inl missing ↦
            let lacks = array_at-LacksArray (lit "instruction_words") params missing in
            let text = and_then (j.get (lit "instruction_hex") params) (λ v. j.as_str v) in
            elim (Option-cases text) [
              | inl no_text ↦ inr (
                lacks,
                inr (
                  λ v found. ap (λ o. and_then o (λ a. j.as_str a)) (sym found) ∙ no_text,
                  ground arith,
                ),
              )
              | inr (s, is_text) ↦ elim (Result-cases (hex.decode s)) [
                | inr (e, refused) ↦ absurd (ground arith)
                | inl (bytes, decoded) ↦
                    let (v, found, read) =
                      and_then-some (j.get (lit "instruction_hex") params) (λ a. j.as_str a)
                        is_text in
                    let same : words_of_bytes bytes ≡ words = ground arith in
                    inr (
                      lacks,
                      inl (
                        v,
                        s,
                        bytes,
                        found,
                        read,
                        decoded,
                        λ small.
                            subst (AreWordsOf bytes) same (words_of_bytes-AreWordsOf bytes small),
                      ),
                    )
              ]
            ]
      ]

  module _ (lez : Wallet i) (core : lez.Core) where
    -- The keys that the wallet has for the accounts, in their order.
    abbrev pub AreKeysOf : List i.AccountId → List i.SigningKey → Type 0
    AreKeysOf [] keys = keys ≡ []
    AreKeysOf (id ∷ ids) keys =
        ((lez.get_account_public_signing_key core id ≡ none) × AreKeysOf ids keys)
        ⊎ ((key : i.SigningKey) × (rest : List i.SigningKey) × (lez.get_account_public_signing_key
                core id
              ≡ some key)
            × (keys ≡ key ∷ rest)
            × AreKeysOf ids rest)

    pub signing_keys-AreKeysOf :
        (ids : List i.AccountId) → AreKeysOf ids (signing_keys j hex i lez core ids)
    unfolding signing_keys
    signing_keys-AreKeysOf [] = refl
    signing_keys-AreKeysOf (id ∷ ids) =
        elim (Option-cases (lez.get_account_public_signing_key core id)) [
          | inl missing ↦
              let skips : signing_keys j hex i lez core (id ∷ ids)
                  ≡ signing_keys j hex i lez core ids =
                rw (signing_keys, missing) refl in
              inl (missing, subst (AreKeysOf ids) (sym skips) (signing_keys-AreKeysOf ids))
          | inr (key, found) ↦ inr (
            key,
            signing_keys j hex i lez core ids,
            found,
            rw (signing_keys, found) refl,
            signing_keys-AreKeysOf ids,
          )
        ]
