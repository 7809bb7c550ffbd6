-- ===== src/Provider/Storage.antt =====
-- The walks of provider.rs over the wallet storage, a JSON file.
pub mod First
pub mod OwnKeys
use lp_0008_logos_agent_modu.Base.{
  ◌%◌, ◌&&◌, Option, none, some, List, [], ◌∷◌, ◌==◌, if◌then◌else◌, length, Result, ok, err, ◌>>=◌,
  map_err, Text, lit,
}
use lp_0008_logos_agent_modu.Keys.{Bytes, hex_fold, to_hex}
use lp_0008_logos_agent_modu.Std.Disk.{Disk, read}
use lp_0008_logos_agent_modu.Provider.Crates.{Json, Identity}
use lp_0008_logos_agent_modu.Provider.{ProviderError, AgentPaths, paths_new, wallet, io, json}

abbrev pub and_then : {A B : Type 0} → Option A → (A → Option B) → Option B
and_then none f = none
and_then (some a) f = f a

module _ (j : Json) where
  unfoldable pub read_storage : AgentPaths → Disk → Result j.Value ProviderError
  read_storage paths disk = do
    bytes ← map_err io (read paths.storage_path disk)
    map_err json (j.from_slice bytes)

  -- `storage.get("key_chain").and_then(…)`
  unfoldable pub key_chain_accounts : j.Value → Option (List j.Value)
  key_chain_accounts storage =
      and_then (j.get (lit "key_chain") storage)
        (λ kc. and_then (j.get (lit "accounts") kc) (λ v. j.as_array v))

  abbrev pub account_id_of : Option j.Value → Option Text
  account_id_of entry =
      and_then entry (λ e. and_then (j.get (lit "account_id") e) (λ v. j.as_str v))

  -- What the walks look for in an entry.
  unfoldable pub private_id : j.Value → Option Text
  private_id entry = account_id_of (j.get (lit "Private") entry)

  unfoldable pub preconfigured_id : j.Value → Option Text
  preconfigured_id entry =
      account_id_of (and_then (j.get (lit "Preconfigured") entry) (λ p. j.get (lit "Public") p))

  unfoldable pub public_id : j.Value → Option Text
  public_id entry = account_id_of (j.get (lit "Public") entry)

  -- `v.as_u64().map(|b| b as u8)`, where this is a number: the rest is left out.
  unfoldable pub number_bytes : List j.Value → Bytes
  number_bytes [] = []
  number_bytes (v ∷ vs) =
      let rest = number_bytes vs in elim (j.as_u64 v) [ none ↦ rest | some b ↦ b % 256 ∷ rest ]

  -- `data.value[0]` of a private entry.
  abbrev pub first_data : j.Value → Option j.Value
  first_data entry = and_then (j.get (lit "data") entry) (λ d.
      and_then (j.get (lit "value") d)
        (λ v. and_then (j.as_array v) (λ vs. elim vs [ [] ↦ none | b ∷ bs ↦ some b ])))

  abbrev pub array_at : Text → Option j.Value → Option (List j.Value)
  array_at key v = and_then v (λ o. and_then (j.get key o) (λ a. j.as_array a))

  -- The loop of all walks: the first entry in which something is found.
  unfoldable pub first_match : {A : Type 0} → (j.Value → Option A) → List j.Value → Option A
  first_match pick [] = none
  first_match pick (entry ∷ entries) =
      let rest = first_match pick entries in elim (pick entry) [ none ↦ rest | some a ↦ some a ]

  -- The key of an entry, if it has 32 bytes.
  unfoldable pub npk_of : j.Value → Option Bytes
  npk_of entry = and_then (j.get (lit "Private") entry) (λ p.
      and_then (array_at (lit "nullifier_public_key") (first_data p))
        (λ vs. if length (number_bytes vs) == 32 then some (number_bytes vs) else none))

  -- The viewing key of an entry, if it is not empty.
  unfoldable pub vpk_of : j.Value → Option Bytes
  vpk_of entry = and_then (j.get (lit "Private") entry) (λ p.
      and_then (array_at (lit "viewing_public_key") (first_data p))
        (λ vs. elim (number_bytes vs) [ [] ↦ none | b ∷ bs ↦ some (b ∷ bs) ]))

  unfoldable pub get_npk : Text → Text → Disk → Result Text ProviderError
  get_npk home passphrase disk = do
    storage ← read_storage (paths_new home) disk
    elim (and_then (key_chain_accounts storage) (λ es. first_match npk_of es)) [
      | none ↦ err (wallet (lit "no private account found in wallet storage" ∷ []))
      | some npk ↦ ok (to_hex npk)
    ]

  unfoldable pub get_vpk : Text → Text → Disk → Result Text ProviderError
  get_vpk home passphrase disk = do
    storage ← read_storage (paths_new home) disk
    elim (and_then (key_chain_accounts storage) (λ es. first_match vpk_of es)) [
      | none ↦ err (wallet (lit "no viewing_public_key in wallet storage" ∷ []))
      | some vpk ↦ ok (hex_fold vpk [])
    ]

  -- The identifier, the nullifier key and the two halves of the viewing seed of an entry, if the
  -- entry has all of them and each has 32 bytes.
  unfoldable pub private_keys : j.Value → Option (Text × Bytes × Bytes × Bytes)
  private_keys entry = and_then (j.get (lit "Private") entry) (λ p.
      and_then (account_id_of (some p)) (λ aid. and_then (first_data p) (λ data_val.
        let vsk =
          and_then (j.get (lit "private_key_holder") data_val)
            (λ h. j.get (lit "viewing_secret_key") h) in
        and_then (array_at (lit "nullifier_public_key") (some data_val)) (λ npk.
          and_then (array_at (lit "d") vsk) (λ d. and_then (array_at (lit "z") vsk) (λ z.
            if (length (number_bytes npk) == 32)
              && (length (number_bytes d) == 32)
              && (length (number_bytes z) == 32)
            then some (aid, number_bytes npk, number_bytes d, number_bytes z)
            else none))))))

  module _ (i : Identity) where
    -- `s.parse().context(…)`
    abbrev pub parse_id : Text → Text → Result i.AccountId ProviderError
    parse_id context s = map_err (λ e. wallet (context ∷ e ∷ [])) (i.parse s)

    unfoldable pub account_id_from_wallet : AgentPaths → Disk → Result i.AccountId ProviderError
    account_id_from_wallet paths disk = do
      storage ← read_storage paths disk
      elim (and_then (key_chain_accounts storage) (λ es. first_match private_id es)) [
        | none ↦ err (
            wallet
              (lit "no private account found in wallet storage; run ensure_account first" ∷ []))
        | some s ↦ parse_id (lit "failed to parse wallet storage account_id") s
      ]

    -- The two passes over the accounts.
    unfoldable pub two_passes : List j.Value → Option Text
    two_passes es = elim (first_match preconfigured_id es) [
      | none ↦ first_match public_id es
      | some s ↦ some s
    ]

    unfoldable pub public_account_id_from_wallet :
        AgentPaths → Disk → Result i.AccountId ProviderError
    public_account_id_from_wallet paths disk = do
      storage ← read_storage paths disk
      elim (and_then (key_chain_accounts storage) (λ es. two_passes es)) [
        | none ↦ err (wallet (lit "no public account found in wallet storage" ∷ []))
        | some s ↦ parse_id (lit "failed to parse wallet storage public account_id") s
      ]

    -- The accounts stand at the top of the storage here.
    unfoldable pub agent_private_keys_from_wallet :
        AgentPaths → Disk → Result (i.AccountId × Bytes × i.ViewingPublicKey) ProviderError
    agent_private_keys_from_wallet paths disk = do
      storage ← read_storage paths disk
      accounts ← elim (array_at (lit "accounts") (some storage)) [
        | none ↦ err (wallet (lit "no accounts in wallet storage" ∷ []))
        | some es ↦ ok es
      ]
      elim (first_match private_keys accounts) [
        | none ↦ err (wallet (lit "no private account keys found in wallet storage" ∷ []))
        | some (aid, npk, d, z) ↦ do
          account_id ← parse_id (lit "failed to parse wallet storage account_id") aid
          ok (account_id, npk, i.from_seed d z)
      ]
