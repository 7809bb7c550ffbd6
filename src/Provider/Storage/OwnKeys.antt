-- ===== src/Provider/Storage/OwnKeys.antt =====
-- Which keys `agent_private_keys_from_wallet` of provider.rs finds.
use mathlib.Core.Path.{subst}
use lp_0008_logos_agent_modu.Base.{
  ◌≡◌, refl, sym, All-mono, ap, ◌∙◌, ◌↔◌, inl, inr, none, true, some, List, [], ◌∷◌, ◌++◌, ◌==◌,
  ◌&&◌, arith, Option, Option-cases, Result-cases, length, All, ok, Text, lit,
}
use lp_0008_logos_agent_modu.Keys.{Bytes}
use lp_0008_logos_agent_modu.Std.Disk.{Disk}
use lp_0008_logos_agent_modu.Provider.Crates.{Json, Identity}
use lp_0008_logos_agent_modu.Provider.{AgentPaths}
use lp_0008_logos_agent_modu.Provider.Storage.{
  read_storage, array_at, and_then, account_id_of, first_data, number_bytes, private_keys,
  first_match, agent_private_keys_from_wallet,
}
use lp_0008_logos_agent_modu.Provider.Storage.First.{
  IsFirst, first_match-IsFirst, IsFirst-first_match, and_then-some, if-some,
}

full_lengths :
    (a b c : Bytes)
    → ((length a == 32) && (length b == 32) && (length c == 32)) ≡ true
    → (length a ≡ 32) × (length b ≡ 32) × (length c ≡ 32)
full_lengths a b c h = (ground arith, ground arith, ground arith)

module _ (j : Json) where
  -- Below the key stands an array whose numbers are these 32 bytes.
  abbrev pub IsKeyAt : j.Value → Text → Bytes → Type 0
  IsKeyAt object key bytes =
      (arr : j.Value) × (vs : List j.Value) × (j.get key object ≡ some arr)
      × (j.as_array arr ≡ some vs)
      × (number_bytes j vs ≡ bytes)
      × (length bytes ≡ 32)

  abbrev pub IsIdOf : j.Value → Text → Type 0
  IsIdOf own aid = (v : j.Value) × (j.get (lit "account_id") own ≡ some v) × (j.as_str v ≡ some aid)

  -- `data.value[0]`
  abbrev pub IsFirstData : j.Value → j.Value → Type 0
  IsFirstData own first =
      (payload values : j.Value) × (others : List j.Value) × (j.get (lit "data") own ≡ some payload)
      × (j.get (lit "value") payload ≡ some values)
      × (j.as_array values ≡ some (first ∷ others))

  abbrev pub IsSeedOf : j.Value → j.Value → Type 0
  IsSeedOf first seed =
      (holder : j.Value) × (j.get (lit "private_key_holder") first ≡ some holder)
      × (j.get (lit "viewing_secret_key") holder ≡ some seed)

  -- A private entry with an identifier and, in the first value of its data, a key and the two
  -- halves of a viewing seed.
  abbrev pub HasKeys : j.Value → Text → Bytes → Bytes → Bytes → Type 0
  HasKeys entry aid npk d z =
      (own first seed : j.Value) × (j.get (lit "Private") entry ≡ some own)
      × IsIdOf own aid
      × IsFirstData own first
      × IsSeedOf first seed
      × IsKeyAt first (lit "nullifier_public_key") npk
      × IsKeyAt seed (lit "d") d
      × IsKeyAt seed (lit "z") z

  first_data-IsFirstData :
      (own : j.Value) {first : j.Value} → first_data j own ≡ some first → IsFirstData own first
  first_data-IsFirstData own h =
      let (payload, d, h1) = and_then-some (j.get (lit "data") own) _ h in
      let (values, v, h2) = and_then-some (j.get (lit "value") payload) _ h1 in
      let (vs, a, h3) = and_then-some (j.as_array values) _ h2 in go payload values vs d v a h3
    where
      go :
          (payload values : j.Value) (vs : List j.Value) {first : j.Value}
          → j.get (lit "data") own ≡ some payload
          → j.get (lit "value") payload ≡ some values
          → j.as_array values ≡ some vs
          → (elim vs as (λ _. Option j.Value) [ [] ↦ none | b ∷ bs ↦ some b ]) ≡ some first
          → IsFirstData own first
      go payload values [] d v a h = absurd (cc)
      go payload values (b ∷ bs) d v a h =
          (payload, values, bs, d, v, a ∙ ap (λ c. some (c ∷ bs)) (cc))

  array_at-IsKeyAt :
      (object : j.Value) (key : Text) {vs : List j.Value} {bytes : Bytes}
      → array_at j key (some object) ≡ some vs
      → number_bytes j vs ≡ bytes
      → length (number_bytes j vs) ≡ 32
      → IsKeyAt object key bytes
  array_at-IsKeyAt object key {vs} h same full =
      let (arr, a, h1) = and_then-some (j.get key object) _ h in
      (arr, vs, a, h1, same, ap (λ (t : Bytes). length t) (sym same) ∙ full)

  private_keys-HasKeys :
      (entry : j.Value) {aid : Text} {npk d z : Bytes}
      → private_keys j entry ≡ some (aid, npk, d, z)
      → HasKeys entry aid npk d z
  unfolding private_keys
  private_keys-HasKeys entry h =
      let (own, p, h1) = and_then-some (j.get (lit "Private") entry) _ h in
      let (aid', a, h2) = and_then-some (account_id_of j (some own)) _ h1 in
      let (v, a1, a2) = and_then-some (j.get (lit "account_id") own) _ a in
      let (first, f, h3) = and_then-some (first_data j own) _ h2 in
      let vsk =
        and_then (j.get (lit "private_key_holder") first)
          (λ o. j.get (lit "viewing_secret_key") o) in
      let (ns, n, h4) = and_then-some (array_at j (lit "nullifier_public_key") (some first)) _ h3 in
      let (ds, e, h5) = and_then-some (array_at j (lit "d") vsk) _ h4 in
      let (zs, g, h6) = and_then-some (array_at j (lit "z") vsk) _ h5 in
      let (seed, s, e1) = and_then-some vsk _ e in
      let (holder, o, s1) = and_then-some (j.get (lit "private_key_holder") first) _ s in
      let (full, same) =
        if-some
          ((length (number_bytes j ns) == 32)
            && (length (number_bytes j ds) == 32)
            && (length (number_bytes j zs) == 32))
          _ _ h6 in
      let g1 : array_at j (lit "z") (some seed) ≡ some zs = ap (array_at j (lit "z")) (sym s) ∙ g in
      let (ln, ld, lz) = full_lengths _ _ _ full in
      (
        own,
        first,
        seed,
        p,
        (v, a1, a2 ∙ ap (λ (q : Text × Bytes × Bytes × Bytes). some q.0) same),
        first_data-IsFirstData own f,
        (holder, o, s1),
        array_at-IsKeyAt first (lit "nullifier_public_key") n
            (ap (λ (q : Text × Bytes × Bytes × Bytes). q.1) same) ln,
        array_at-IsKeyAt seed (lit "d") e1 (ap (λ (q : Text × Bytes × Bytes × Bytes). q.2) same) ld,
        array_at-IsKeyAt seed (lit "z") g1 (ap (λ (q : Text × Bytes × Bytes × Bytes). q.3) same) lz,
      )

  HasKeys-private_keys :
      (entry : j.Value) {aid : Text} {npk d z : Bytes}
      → HasKeys entry aid npk d z
      → private_keys j entry ≡ some (aid, npk, d, z)
  unfolding private_keys
  HasKeys-private_keys entry
        (
          own,
          first,
          seed,
          p,
          (v, a1, a2),
          (payload, values, others, d1, d2, d3),
          (holder, o, s),
          (narr, ns, n1, n2, n3, n4),
          (darr, ds, e1, e2, e3, e4),
          (zarr, zs, g1, g2, g3, g4),
        ) =
      rw (p, a1, a2, d1, d2, d3, o, s, n1, n2, e1, e2, g1, g2, n3, e3, g3, n4, e4, g4) refl

  -- The keys are those of the first entry that has keys.
  abbrev pub FirstKeys : List j.Value → Text → Bytes → Bytes → Bytes → Type 0
  FirstKeys es aid npk d z =
      (before : List j.Value) × (entry : j.Value) × (after : List j.Value) × (es
        ≡ before ++ entry ∷ after)
      × All (λ e. (aid' : Text) (npk' d' z' : Bytes) → ¬ HasKeys e aid' npk' d' z') before
      × HasKeys entry aid npk d z

  none-keyless :
      (e : j.Value)
      → private_keys j e ≡ none
      → (aid : Text) (npk d z : Bytes) → ¬ HasKeys e aid npk d z
  none-keyless e missing aid npk d z has = let found = HasKeys-private_keys e has in absurd (cc)

  keyless-none :
      (e : j.Value)
      → ((aid : Text) (npk d z : Bytes) → ¬ HasKeys e aid npk d z)
      → private_keys j e ≡ none
  keyless-none e keyless = elim (Option-cases (private_keys j e)) [
    | inl missing ↦ missing
    | inr ((aid, npk, d, z), found) ↦ absurd (keyless aid npk d z (private_keys-HasKeys e found))
  ]

  IsFirst-FirstKeys :
      (es : List j.Value) {aid : Text} {npk d z : Bytes}
      → IsFirst j (private_keys j) es (aid, npk, d, z)
      → FirstKeys es aid npk d z
  IsFirst-FirstKeys es (before, entry, after, split, skipped, found) = (
    before,
    entry,
    after,
    split,
    All-mono _ _ none-keyless before skipped,
    private_keys-HasKeys entry found,
  )

  FirstKeys-IsFirst :
      (es : List j.Value) {aid : Text} {npk d z : Bytes}
      → FirstKeys es aid npk d z
      → IsFirst j (private_keys j) es (aid, npk, d, z)
  FirstKeys-IsFirst es (before, entry, after, split, skipped, has) = (
    before,
    entry,
    after,
    split,
    All-mono _ _ keyless-none before skipped,
    HasKeys-private_keys entry has,
  )

module _ (j : Json) (i : Identity) (paths : AgentPaths) (disk : Disk) where
  -- The accounts that stand at the top of the storage file.
  abbrev pub HoldsAtTop : List j.Value → Type 0
  HoldsAtTop es =
      (storage : j.Value) × (read_storage j paths disk ≡ ok storage)
      × (array_at j (lit "accounts") (some storage) ≡ some es)

  -- The keys of the agent are those of the first private entry that has an identifier, a key and a
  -- viewing seed whose two halves and key have 32 bytes each; there are none if no entry has them
  -- all, or the identifier is not read. The accounts stand at the top of the storage.
  pub agent_private_keys_from_wallet-IsFirst :
      {es : List j.Value} (id : i.AccountId) (npk : Bytes) (vpk : i.ViewingPublicKey)
      → HoldsAtTop es
      → (agent_private_keys_from_wallet j i paths disk ≡ ok (id, npk, vpk)) ↔ (
          (aid : Text) × (d : Bytes) × (z : Bytes) × FirstKeys j es aid npk d z
          × (i.parse aid ≡ ok id)
          × (vpk ≡ i.from_seed d z))
  unfolding agent_private_keys_from_wallet
  agent_private_keys_from_wallet-IsFirst {es} id npk vpk (storage, r, top) = (
    λ h. elim (Option-cases (first_match j (private_keys j) es)) [
      | inl missing ↦ absurd (ground arith)
      | inr ((aid, npk', d, z), found) ↦ elim (Result-cases (i.parse aid)) [
        | inl (id', read) ↦
            let first = IsFirst-FirstKeys j es (first_match-IsFirst j (private_keys j) es found) in
            let (same_id, same_npk, same_vpk) : (id' ≡ id)
                × (npk' ≡ npk)
                × (i.from_seed d z ≡ vpk) =
              ground arith in
            (
              aid,
              d,
              z,
              subst (λ k. FirstKeys j es aid k d z) same_npk first,
              read ∙ ap ok same_id,
              sym same_vpk,
            )
        | inr (e, refused) ↦ absurd (ground arith)
      ]
    ],
    λ (aid, d, z, first, read, seed).
        let found = IsFirst-first_match j (private_keys j) es (FirstKeys-IsFirst j es first) in
        ground arith,
  )
