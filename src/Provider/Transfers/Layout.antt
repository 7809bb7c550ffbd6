-- ===== src/Provider/Transfers/Layout.antt =====
-- Transfers from a wallet whose storage has its accounts below `key_chain` only.
use lp_0008_logos_agent_modu.Base.{◌≡◌, inl, inr, none, [], ◌∷◌, arith, ok, err, Text, lit}
use lp_0008_logos_agent_modu.Provider.Crates.{Json, HexCodec, Identity, Wallet}
use lp_0008_logos_agent_modu.Provider.{ProviderError, paths_new, AgentPaths, wallet}
use lp_0008_logos_agent_modu.Provider.Storage.{read_storage, agent_private_keys_from_wallet}
use lp_0008_logos_agent_modu.Provider.World.{World}
use lp_0008_logos_agent_modu.Provider.Transfers.{send_to_foreign}
use lp_0008_logos_agent_modu.Provider.Transfers.Safety.{send_to_foreign-PaysOnce}
use lp_0008_logos_agent_modu.Std.Disk.{Disk}

module _ (j : Json) (hex : HexCodec) (i : Identity) (lez : Wallet i) where
  no_keys :
      (paths : AgentPaths) (disk : Disk) {storage : j.Value}
      → read_storage j paths disk ≡ ok storage
      → j.get (lit "accounts") storage ≡ none
      → agent_private_keys_from_wallet j i paths disk
        ≡ err (wallet (lit "no accounts in wallet storage" ∷ []))
  unfolding agent_private_keys_from_wallet
  no_keys paths disk found nested = ground arith

  -- If the storage has no field `accounts` at its top, `send_to_foreign` always fails and sends
  -- nothing.
  pub send_to_foreign_nested :
      (home npk_hex vpk_hex amount_decimal : Text) (w : World i) {storage : j.Value}
      → read_storage j (paths_new home) w.disk ≡ ok storage
      → j.get (lit "accounts") storage ≡ none
      → let r = send_to_foreign j hex i lez home npk_hex vpk_hex amount_decimal w in
        ((e : ProviderError) × (r.0 ≡ err e)) × (r.1.sent ≡ w.sent)
  send_to_foreign_nested home npk_hex vpk_hex amount_decimal w found nested =
      let missing = no_keys (paths_new home) w.disk found nested in
      elim (send_to_foreign-PaysOnce j hex i lez home npk_hex vpk_hex amount_decimal w) [
        | inl failed ↦ failed
        | inr
              (
                t,
                sent,
                (from_id, npk, vpk, amount, same, (own, own_vpk, held), to, vpk_read, spelled),
              ) ↦
            absurd (cc (missing, held))
      ]
