-- ===== src/Provider/Storage/First.antt =====
-- Which account the walks over the wallet storage find.
use mathlib.Core.Path.{subst}
use lp_0008_logos_agent_modu.Base.{
  ◌≡◌, refl, sym, ap, ◌∙◌, ◌↔◌, ◌⊎◌, inl, inr, Bool, true, false, Option, none, some, List, [], ◌∷◌,
  ◌++◌, arith, ◌==◌, if◌then◌else◌, ==_iff, Option-cases, length, All, ok, Text, lit,
}
use lp_0008_logos_agent_modu.Keys.{Bytes, AreBytes, from_hex, to_hex}
use lp_0008_logos_agent_modu.Keys.Hex.{from_hex-to_hex}
use lp_0008_logos_agent_modu.Std.Disk.{Disk}
use lp_0008_logos_agent_modu.Provider.Crates.{Json, Identity}
use lp_0008_logos_agent_modu.Provider.{AgentPaths, paths_new}
use lp_0008_logos_agent_modu.Provider.Storage.{
  and_then, read_storage, key_chain_accounts, private_id, preconfigured_id, public_id, number_bytes,
  array_at, first_data, first_match, npk_of, get_npk, account_id_from_wallet, two_passes,
  public_account_id_from_wallet,
}

module _ (j : Json) where
  -- The first entry in which something is found, and what.
  abbrev pub IsFirst : {A : Type 0} → (j.Value → Option A) → List j.Value → A → Type 0
  IsFirst pick es a =
      (before : List j.Value) × (entry : j.Value) × (after : List j.Value) × (es
        ≡ before ++ entry ∷ after)
      × All (λ e. pick e ≡ none) before
      × (pick entry ≡ some a)

  pub first_match-IsFirst :
      {A : Type 0} (pick : j.Value → Option A) (es : List j.Value) {a : A}
      → first_match j pick es ≡ some a
      → IsFirst pick es a
  unfolding first_match
  first_match-IsFirst pick [] h = absurd (cc)
  first_match-IsFirst pick (e ∷ es) h = elim (Option-cases (pick e)) [
    | inr (b, found) ↦ ([], e, es, refl, tt, ground arith)
    | inl missing ↦
        let (before, entry, after, split, skipped, found) =
          first_match-IsFirst pick es (ground arith) in
        (e ∷ before, entry, after, ap (λ t. e ∷ t) split, (missing, skipped), found)
  ]

  first_match-append :
      {A : Type 0} (pick : j.Value → Option A) (before after : List j.Value) (entry : j.Value)
      {a : A}
      → All (λ e. pick e ≡ none) before
      → pick entry ≡ some a
      → first_match j pick (before ++ entry ∷ after) ≡ some a
  unfolding first_match
  first_match-append pick [] after entry skipped found = rw found
  first_match-append pick (e ∷ before) after entry (missing, skipped) found =
      rw missing (first_match-append pick before after entry skipped found)

  pub IsFirst-first_match :
      {A : Type 0} (pick : j.Value → Option A) (es : List j.Value) {a : A}
      → IsFirst pick es a
      → first_match j pick es ≡ some a
  IsFirst-first_match pick es (before, entry, after, split, skipped, found) =
      rw split (first_match-append pick before after entry skipped found)

  pub first_match-none :
      {A : Type 0} (pick : j.Value → Option A) (es : List j.Value)
      → first_match j pick es ≡ none
      → All (λ e. pick e ≡ none) es
  unfolding first_match
  first_match-none pick [] h = tt
  first_match-none pick (e ∷ es) h = elim (Option-cases (pick e)) [
    | inr (b, found) ↦ absurd (ground arith)
    | inl missing ↦ (missing, first_match-none pick es (ground arith))
  ]

  pub none-first_match :
      {A : Type 0} (pick : j.Value → Option A) (es : List j.Value)
      → All (λ e. pick e ≡ none) es
      → first_match j pick es ≡ none
  unfolding first_match
  none-first_match pick [] h = refl
  none-first_match pick (e ∷ es) (missing, rest) =
      rw (first_match, missing) (none-first_match pick es rest)

  module _ (paths : AgentPaths) (disk : Disk) where
    -- The accounts that stand in the storage file.
    abbrev pub Holds : List j.Value → Type 0
    Holds es =
        (storage : j.Value) × (read_storage j paths disk ≡ ok storage)
        × (key_chain_accounts j storage ≡ some es)

    -- The wallet's own account is that of the first private entry with an identifier, and there is
    -- none if no entry has one or the identifier is not read.
    pub account_id_from_wallet-IsFirst :
        (i : Identity) {es : List j.Value} (id : i.AccountId)
        → Holds es
        → (account_id_from_wallet j i paths disk ≡ ok id)
          ↔ ((s : Text) × IsFirst (private_id j) es s × (i.parse s ≡ ok id))
    unfolding account_id_from_wallet
    account_id_from_wallet-IsFirst i {es} id (storage, r, k) = (
      λ h. elim (Option-cases (first_match j (private_id j) es)) [
        | inl missing ↦ absurd (ground arith)
        | inr (s, found) ↦ (s, first_match-IsFirst (private_id j) es found, ground arith)
      ],
      λ (s, first, read). let found = IsFirst-first_match (private_id j) es first in ground arith,
    )

    -- The sender of shielded transfers is the public account of the first preconfigured entry; a
    -- plain public entry counts only if no entry is a preconfigured one with an identifier.
    pub public_account_id_from_wallet-IsFirst :
        (i : Identity) {es : List j.Value} (id : i.AccountId)
        → Holds es
        → (public_account_id_from_wallet j i paths disk ≡ ok id) ↔ (
            (s : Text) × (IsFirst (preconfigured_id j) es s
              ⊎ (All (λ e. preconfigured_id j e ≡ none) es × IsFirst (public_id j) es s))
            × (i.parse s ≡ ok id))
    unfolding public_account_id_from_wallet two_passes
    public_account_id_from_wallet-IsFirst i {es} id (storage, r, k) = (
      λ h. elim (Option-cases (first_match j (preconfigured_id j) es)) [
        | inr (s, found) ↦
            (s, inl (first_match-IsFirst (preconfigured_id j) es found), ground arith)
        | inl missing ↦ elim (Option-cases (first_match j (public_id j) es)) [
          | inl none_too ↦ absurd (ground arith)
          | inr (s, found) ↦ (
            s,
            inr (
              first_match-none (preconfigured_id j) es missing,
              first_match-IsFirst (public_id j) es found,
            ),
            ground arith,
          )
        ]
      ],
      λ (s, place, read). elim place [
        | inl first ↦ let found = IsFirst-first_match (preconfigured_id j) es first in ground arith
        | inr (others, first) ↦
            let missing = none-first_match (preconfigured_id j) es others in
            let found = IsFirst-first_match (public_id j) es first in ground arith
      ],
    )

number_bytes-AreBytes : (j : Json) (vs : List j.Value) → AreBytes (number_bytes j vs)
unfolding number_bytes
number_bytes-AreBytes j [] = tt
number_bytes-AreBytes j (v ∷ vs) = elim (Option-cases (j.as_u64 v)) [
  | inl missing ↦ rw (number_bytes, missing) (number_bytes-AreBytes j vs)
  | inr (b, found) ↦ rw (number_bytes, found) (omega arith, number_bytes-AreBytes j vs)
]

pub if-some :
    {A : Type 0} (b : Bool) (a c : A) → (if b then some a else none) ≡ some c → (b ≡ true) × (a ≡ c)
if-some true a c h = (refl, cc)
if-some false a c h = absurd (cc)

pub and_then-some :
    {A B : Type 0} (o : Option A) (f : A → Option B) {b : B}
    → and_then o f ≡ some b
    → (a : A) × (o ≡ some a) × (f a ≡ some b)
and_then-some none f h = absurd (cc)
and_then-some (some a) f h = (a, refl, h)

npk_of-some :
    (j : Json) (e : j.Value) {npk : Bytes}
    → npk_of j e ≡ some npk
    → AreBytes npk × (length npk ≡ 32)
unfolding npk_of
npk_of-some j e {npk} h =
    let (p, _, h') = and_then-some (j.get (lit "Private") e) _ h in
    let (vs, _, h'') =
      and_then-some (array_at j (lit "nullifier_public_key") (first_data j p))
        (λ vs. if length (number_bytes j vs) == 32 then some (number_bytes j vs) else none) h' in
    let (full, same) = if-some (length (number_bytes j vs) == 32) _ _ h'' in
    (
      subst AreBytes same (number_bytes-AreBytes j vs),
      ap (λ (t : Bytes). length t) (sym same) ∙ (==_iff _ _).0 full,
    )

-- Whatever the passphrase, `get_npk` answers the key of the first private entry that has a whole
-- one, in the hexadecimal form that `from_hex` reads back, and answers nothing else. The
-- accounts stand below `key_chain`.
pub get_npk-IsFirst :
    (j : Json) (home passphrase : Text) (disk : Disk) {es : List j.Value} (hex : Text)
    → Holds j (paths_new home) disk es
    → (get_npk j home passphrase disk ≡ ok hex) ↔ (
        (npk : Bytes) × IsFirst j (npk_of j) es npk
        × (length npk ≡ 32)
        × (from_hex hex ≡ some (ok npk))
        × (hex ≡ to_hex npk))
unfolding get_npk
get_npk-IsFirst j home passphrase disk {es} hex (storage, r, k) = (
  λ h. elim (Option-cases (first_match j (npk_of j) es)) [
    | inl missing ↦ absurd (ground arith)
    | inr (npk, found) ↦
        let first = first_match-IsFirst j (npk_of j) es found in
        let (small, full) = npk_of-some j first.1 first.5 in
        let same : to_hex npk ≡ hex = ground arith in
        (npk, first, full, ap from_hex (sym same) ∙ from_hex-to_hex npk small full, sym same)
  ],
  λ (npk, first, full, back, same).
      let found = IsFirst-first_match j (npk_of j) es first in ground arith,
)
