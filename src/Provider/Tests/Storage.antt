-- ===== src/Provider/Tests/Storage.antt =====
-- The theorems on the wallet storage at concrete data.
use lp_0008_logos_agent_modu.Base.{
  ◌≡◌, refl, ◌↔◌, ◌⊎◌, none, some, List, [], ◌∷◌, length, replicate, All, ok, Text, lit,
}
use lp_0008_logos_agent_modu.Keys.{Bytes, from_hex, to_hex}
use lp_0008_logos_agent_modu.Std.Disk.{read}
use lp_0008_logos_agent_modu.Provider.{paths_new}
use lp_0008_logos_agent_modu.Provider.Storage.{
  key_chain_accounts, read_storage, private_id, preconfigured_id, public_id, npk_of, number_bytes,
  first_match, get_npk, account_id_from_wallet, private_keys, agent_private_keys_from_wallet,
  public_account_id_from_wallet,
}
use lp_0008_logos_agent_modu.Provider.Storage.First.{
  IsFirst, Holds, account_id_from_wallet-IsFirst, public_account_id_from_wallet-IsFirst,
  get_npk-IsFirst,
}
use lp_0008_logos_agent_modu.Provider.Storage.OwnKeys.{
  FirstKeys, HoldsAtTop, agent_private_keys_from_wallet-IsFirst,
}
use lp_0008_logos_agent_modu.Provider.Tests.{
  Node, get, elements, as_array, as_str, as_u64, just, ones, own_entry, bank_entry, storage,
  toy_json, identity, disk, text,
}

abbrev accounts : List Node
accounts =
    just (lit "Public") (just (lit "account_id") (text (lit "other"))) ∷ own_entry ∷ bank_entry ∷ []

holds : Holds toy_json (paths_new (lit "home")) disk accounts
unfolding read_storage key_chain_accounts read get as_array elements ones
holds = (storage, refl, refl)

account_id_from_wallet-IsFirst_example :
    (account_id_from_wallet toy_json identity (paths_new (lit "home")) disk ≡ ok (lit "me")) ↔ (
      (s : Text) × IsFirst toy_json (private_id toy_json) accounts s
      × (identity.parse s ≡ ok (lit "me")))
account_id_from_wallet-IsFirst_example =
    account_id_from_wallet-IsFirst toy_json (paths_new (lit "home")) disk identity (lit "me") holds

public_account_id_from_wallet-IsFirst_example :
    (public_account_id_from_wallet toy_json identity (paths_new (lit "home")) disk
      ≡ ok (lit "bank"))
    ↔ ((s : Text) × (IsFirst toy_json (preconfigured_id toy_json) accounts s
          ⊎ (All (λ e. preconfigured_id toy_json e ≡ none) accounts
              × IsFirst toy_json (public_id toy_json) accounts s))
        × (identity.parse s ≡ ok (lit "bank")))
public_account_id_from_wallet-IsFirst_example =
    public_account_id_from_wallet-IsFirst toy_json (paths_new (lit "home")) disk identity
      (lit "bank") holds

own_npk : get_npk toy_json (lit "home") [] disk ≡ ok (to_hex (replicate 32 1))
unfolding get_npk read_storage key_chain_accounts read first_match npk_of number_bytes get as_array
    as_u64 elements ones
own_npk = refl

get_npk-IsFirst_example : (get_npk toy_json (lit "home") [] disk ≡ ok (to_hex (replicate 32 1))) ↔ (
    (npk : Bytes) × IsFirst toy_json (npk_of toy_json) accounts npk
    × (length npk ≡ 32)
    × (from_hex (to_hex (replicate 32 1)) ≡ some (ok npk))
    × (to_hex (replicate 32 1) ≡ to_hex npk))
get_npk-IsFirst_example =
    get_npk-IsFirst toy_json (lit "home") [] disk (to_hex (replicate 32 1)) holds

holds_at_top : HoldsAtTop toy_json identity (paths_new (lit "home")) disk accounts
unfolding read_storage read get as_array elements ones
holds_at_top = (storage, refl, refl)

own_keys_run :
    agent_private_keys_from_wallet toy_json identity (paths_new (lit "home")) disk
    ≡ ok (lit "me", replicate 32 1, replicate 64 1)
unfolding agent_private_keys_from_wallet read_storage read first_match private_keys number_bytes get
    as_array as_str as_u64 elements ones
own_keys_run = refl

agent_private_keys_from_wallet-IsFirst_example :
    (agent_private_keys_from_wallet toy_json identity (paths_new (lit "home")) disk
      ≡ ok (lit "me", replicate 32 1, replicate 64 1))
    ↔ ((aid : Text) × (d : Bytes) × (z : Bytes) × FirstKeys toy_json accounts aid
          (replicate 32 1)
          d
          z
        × (identity.parse aid ≡ ok (lit "me"))
        × (replicate 64 1 ≡ identity.from_seed d z))
agent_private_keys_from_wallet-IsFirst_example =
    agent_private_keys_from_wallet-IsFirst toy_json identity (paths_new (lit "home")) disk
      (lit "me") (replicate 32 1) (replicate 64 1) holds_at_top
