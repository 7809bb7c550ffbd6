-- ===== src/Provider/Transfers.antt =====
-- `send_shielded` and `send_to_foreign` of provider.rs.
pub mod Safety
pub mod Layout
use lp_0008_logos_agent_modu.Base.{
  ℕ, ◌+◌, ◌-◌, not, none, some, [], ◌∷◌, ◌++◌, ◌==◌, if◌then◌else◌, length, Result, ok, err,
  map_err, Text, lit,
}
use lp_0008_logos_agent_modu.Keys.{Bytes, invalid_base58}
use lp_0008_logos_agent_modu.Std.Strings.{len}
use lp_0008_logos_agent_modu.Std.Trim.{trim}
use lp_0008_logos_agent_modu.Std.Decimal.{to_string, parse_u128}
use lp_0008_logos_agent_modu.Provider.Crates.{
  Json, HexCodec, Identity, shielded_transfer, private_transfer, Wallet,
}
use lp_0008_logos_agent_modu.Provider.{ProviderError, paths_new, wallet, keys, invalid_amount}
use lp_0008_logos_agent_modu.Provider.Storage.{
  agent_private_keys_from_wallet, public_account_id_from_wallet,
}
use lp_0008_logos_agent_modu.Provider.World.{Act, ◌>>=◌, lift, reading, open_wallet, send}

unfoldable pub parse_amount : Text → Result ℕ ProviderError
parse_amount amount_decimal = elim (parse_u128 (trim amount_decimal)) [
  | none ↦ err (invalid_amount amount_decimal)
  | some amount ↦ ok amount
]

module _ (hex : HexCodec) where
  -- `hex::decode` and the test of the length.
  unfoldable pub decode_npk : Text → Result Bytes ProviderError
  decode_npk npk_hex = elim (hex.decode (trim npk_hex)) [
    | err e ↦ err (wallet ((lit "invalid npk_hex: " ++ e) ∷ []))
    | ok bytes ↦
        if not (length bytes == 32)
        then err (
            wallet (
              (lit "npk_hex must be 32 bytes (64 hex chars), got " ++ to_string (length bytes))
              ∷ []))
        else ok bytes
  ]

  unfoldable pub decode_vpk : (i : Identity) → Text → Result i.ViewingPublicKey ProviderError
  decode_vpk i vpk_hex = elim (hex.decode (trim vpk_hex)) [
    | err e ↦ err (wallet ((lit "invalid vpk_hex: " ++ e) ∷ []))
    | ok bytes ↦
        if not (length bytes == 1184)
        then err (
            wallet (
              (lit "vpk_hex must be 1184 bytes (ML-KEM-768 encapsulation key), got "
                ++ to_string (length bytes))
              ∷ []))
        else map_err (λ e. wallet ((lit "invalid vpk: " ++ e) ∷ [])) (i.from_bytes bytes)
  ]

module _ (j : Json) (hex : HexCodec) (i : Identity) (lez : Wallet i) where
  unfoldable pub send_to_foreign : Text → Text → Text → Text → Act i Text
  send_to_foreign home npk_hex vpk_hex amount_decimal = do
    amount ← lift (parse_amount amount_decimal)
    to_npk ← lift (decode_npk hex npk_hex)
    to_vpk ← lift (decode_vpk hex i vpk_hex)
    (from_id, _, _) ← reading (agent_private_keys_from_wallet j i (paths_new home))
    core ← open_wallet lez (paths_new home)
    hash ← send lez core (private_transfer from_id to_npk to_vpk 0 amount)
    lift (ok (hex.encode hash))

  -- Who the recipient is: only the agent itself can be paid this way.
  unfoldable pub check_recipient : i.AccountId → Text → Result (Unit {0}) ProviderError
  check_recipient agent_account_id recipient = elim (i.parse recipient) [
    | ok to_id ↦
        if i.same to_id agent_account_id
        then ok tt
        else err (
            wallet (
              lit
                "shielded send to external AccountId not yet supported: recipient NPK+VPK required. Recipient must be your own account or provide hex NPK+VPK via the extended API."
              ∷ []))
    | err e ↦
        if len recipient == 64
        then err (
            wallet (
              lit
                "send to raw NPK not yet supported: VPK required but cannot be derived from NPK. Use base58 AccountId for your own account, or extend the API to accept vpk_hex."
              ∷ []))
        else err (keys invalid_base58)
  ]

  unfoldable pub send_shielded : Text → Text → Text → Text → Act i Text
  send_shielded home passphrase recipient amount_decimal = do
    amount ← lift (parse_amount amount_decimal)
    from_id ← reading (public_account_id_from_wallet j i (paths_new home))
    core ← open_wallet lez (paths_new home)
    (agent_account_id, agent_npk, agent_vpk) ←
        reading (agent_private_keys_from_wallet j i (paths_new home))
    _ ← lift (check_recipient agent_account_id recipient)
    hash ← send lez core (shielded_transfer from_id agent_npk agent_vpk 0 amount)
    lift (ok (hex.encode hash))
