-- ===== src/Provider/Transfers/Safety.antt =====
-- What a transfer can be: no error leaves more than one, and none is sent with arguments that were
-- not checked.
use lp_0008_logos_agent_modu.Base.{
  Result-cases, ℕ, ◌<◌, ◌≡◌, refl, ap, ◌⊎◌, inl, inr, true, some, List, [], ◌∷◌, ◌++◌, arith,
  length, Result, ok, err, Text,
}
use lp_0008_logos_agent_modu.Keys.{Bytes}
use lp_0008_logos_agent_modu.Std.Disk.{Disk}
use lp_0008_logos_agent_modu.Std.Trim.{trim}
use lp_0008_logos_agent_modu.Std.Decimal.{u128_mod, parse_u128, parse_u128_bound}
use lp_0008_logos_agent_modu.Provider.Crates.{
  Json, HexCodec, Identity, Request, shielded_transfer, private_transfer, Wallet,
}
use lp_0008_logos_agent_modu.Provider.{ProviderError, paths_new}
use lp_0008_logos_agent_modu.Provider.Storage.{
  agent_private_keys_from_wallet, public_account_id_from_wallet,
}
use lp_0008_logos_agent_modu.Provider.World.{World, Act, continue, open_wallet, send}
use lp_0008_logos_agent_modu.Provider.Transfers.{
  parse_amount, decode_npk, decode_vpk, check_recipient, send_to_foreign, send_shielded,
}

-- Either the operation failed and nothing was sent, or one transfer was sent, and it is as meant.
abbrev pub PaysOnce :
    {i : Identity}
    → (Request i → Type 0)
    → List (Request i)
    → Result Text ProviderError × World i
    → Type 0
PaysOnce Meant before r =
    (((e : ProviderError) × (r.0 ≡ err e)) × (r.1.sent ≡ before))
    ⊎ ((t : _) × (r.1.sent ≡ before ++ (t ∷ [])) × Meant t)

module _ {i : Identity} {Meant : Request i → Type 0} where
  pub continue-PaysOnce :
      {A : Type 0} (r : Result A ProviderError) (w v : World i) (f : A → Act i Text)
      → v.sent ≡ w.sent
      → ((a : A) → r ≡ ok a → PaysOnce Meant w.sent (f a v))
      → PaysOnce Meant w.sent (continue (r, v) f)
  continue-PaysOnce (ok a) w v f same pays = pays a refl
  continue-PaysOnce (err e) w v f same pays = inl ((e, refl), same)

  -- The last two steps.
  send-PaysOnce :
      (lez : Wallet i) (core : lez.Core) (t : Request i) (w v : World i) (encode : List ℕ → Text)
      → v.sent ≡ w.sent
      → Meant t
      → PaysOnce Meant w.sent (continue (send lez core t v) (λ hash u. (ok (encode hash), u)))
  unfolding send
  send-PaysOnce lez core t w v encode same meant = elim (Result-cases (lez.send core v.sent t)) [
    | inl (hash, sent) ↦ rw sent (inr (t, ap (λ s. s ++ (t ∷ [])) same, meant))
    | inr (e, refused) ↦ rw refused (inr (t, ap (λ s. s ++ (t ∷ [])) same, meant))
  ]

parse_amount-ok :
    (s : Text) {amount : ℕ} → parse_amount s ≡ ok amount → parse_u128 (trim s) ≡ some amount
unfolding parse_amount
parse_amount-ok s h = ground arith

decode_npk-ok :
    (hex : HexCodec) (s : Text) {npk : Bytes}
    → decode_npk hex s ≡ ok npk
    → (hex.decode (trim s) ≡ ok npk) × (length npk ≡ 32)
unfolding decode_npk
decode_npk-ok hex s h = (ground arith, ground arith)

decode_vpk-ok :
    (hex : HexCodec) (i : Identity) (s : Text) {vpk : i.ViewingPublicKey}
    → decode_vpk hex i s ≡ ok vpk
    → (bytes : Bytes) × (hex.decode (trim s) ≡ ok bytes)
      × (length bytes ≡ 1184)
      × (i.from_bytes bytes ≡ ok vpk)
unfolding decode_vpk
decode_vpk-ok hex i s h = elim (Result-cases (hex.decode (trim s))) [
  | inl (bytes, decoded) ↦ (bytes, decoded, ground arith, ground arith)
  | inr (e, failed) ↦ absurd (ground arith)
]

module _ (j : Json) (hex : HexCodec) (i : Identity) (lez : Wallet i) where
  -- A transfer from the account of the storage, to the keys and of the amount that the arguments
  -- spell.
  abbrev pub IsForeign : Text → Text → Text → Text → World i → Request i → Type 0
  IsForeign home npk_hex vpk_hex amount_decimal w t =
      (from_id : i.AccountId) × (npk : Bytes) × (vpk : i.ViewingPublicKey) × (amount : ℕ) × (t
        ≡ private_transfer from_id npk vpk 0 amount)
      × ((own : Bytes) × (own_vpk : i.ViewingPublicKey) × (agent_private_keys_from_wallet j i
              (paths_new home) w.disk
            ≡ ok (from_id, own, own_vpk)))
      × ((hex.decode (trim npk_hex) ≡ ok npk) × (length npk ≡ 32))
      × ((bytes : Bytes) × (hex.decode (trim vpk_hex) ≡ ok bytes)
          × (length bytes ≡ 1184)
          × (i.from_bytes bytes ≡ ok vpk))
      × ((parse_u128 (trim amount_decimal) ≡ some amount) × (amount < u128_mod))

  -- `send_to_foreign` fails and sends nothing, or sends exactly one transfer, from the agent's own
  -- account, to keys of 32 and 1184 bytes, of an amount below 2 ^ 128, all as the arguments spell
  -- them.
  pub send_to_foreign-PaysOnce :
      (home npk_hex vpk_hex amount_decimal : Text) (w : World i)
      → PaysOnce
          (IsForeign home npk_hex vpk_hex amount_decimal w)
          w.sent
          (send_to_foreign j hex i lez home npk_hex vpk_hex amount_decimal w)
  unfolding send_to_foreign open_wallet
  send_to_foreign-PaysOnce home npk_hex vpk_hex amount_decimal w =
      continue-PaysOnce (parse_amount amount_decimal) w w _ refl (λ amount a.
        continue-PaysOnce (decode_npk hex npk_hex) w w _ refl (λ npk n.
          continue-PaysOnce (decode_vpk hex i vpk_hex) w w _ refl (λ vpk v.
            continue-PaysOnce (agent_private_keys_from_wallet j i (paths_new home) w.disk) w w _
              refl
              (λ (from_id, own, own_vpk) k.
                continue-PaysOnce (open_wallet lez (paths_new home) w).0 w
                  (open_wallet lez (paths_new home) w).1 _ refl
                  (λ core o.
                    send-PaysOnce lez core (private_transfer from_id npk vpk 0 amount) w
                      (open_wallet lez (paths_new home) w).1 hex.encode refl
                      (
                        from_id,
                        npk,
                        vpk,
                        amount,
                        refl,
                        (own, own_vpk, k),
                        decode_npk-ok hex npk_hex n,
                        decode_vpk-ok hex i vpk_hex v,
                        (
                          parse_amount-ok amount_decimal a,
                          parse_u128_bound _ (parse_amount-ok amount_decimal a),
                        ),
                      ))))))

  -- The files once the wallet of the home is open.
  abbrev pub opened_disk : Text → World i → Disk
  opened_disk home w =
      (lez.new_update_chain (paths_new home).config_path (paths_new home).storage_path w.disk).1

  -- A transfer from the public account of the storage to the agent's own keys; the recipient is
  -- the agent's own account.
  abbrev pub IsOwn : Text → Text → Text → World i → Request i → Type 0
  IsOwn home recipient amount_decimal w t =
      (from_id own_id to_id : i.AccountId) × (npk : Bytes) × (vpk : i.ViewingPublicKey)
      × (amount : ℕ) × (t ≡ shielded_transfer from_id npk vpk 0 amount)
      × (public_account_id_from_wallet j i (paths_new home) w.disk ≡ ok from_id)
      × (agent_private_keys_from_wallet j i (paths_new home) (opened_disk home w)
          ≡ ok (own_id, npk, vpk))
      × ((i.parse recipient ≡ ok to_id) × (i.same to_id own_id ≡ true))
      × ((parse_u128 (trim amount_decimal) ≡ some amount) × (amount < u128_mod))

  check_recipient-ok :
      (own_id : i.AccountId) (recipient : Text)
      → check_recipient j hex i lez own_id recipient ≡ ok tt
      → (to_id : i.AccountId) × (i.parse recipient ≡ ok to_id) × (i.same to_id own_id ≡ true)
  unfolding check_recipient
  check_recipient-ok own_id recipient h = elim (Result-cases (i.parse recipient)) [
    | inl (to_id, parsed) ↦ (to_id, parsed, ground arith)
    | inr (e, failed) ↦ absurd (ground arith)
  ]

  -- `send_shielded` fails and sends nothing, or sends exactly one transfer, from the public account
  -- to the agent's own keys, and only if the recipient is the agent's own account and the amount a
  -- number below 2 ^ 128. The keys are those of the storage after the wallet was opened.
  pub send_shielded-PaysOnce :
      (home passphrase recipient amount_decimal : Text) (w : World i)
      → PaysOnce
          (IsOwn home recipient amount_decimal w)
          w.sent
          (send_shielded j hex i lez home passphrase recipient amount_decimal w)
  unfolding send_shielded open_wallet
  send_shielded-PaysOnce home passphrase recipient amount_decimal w =
      continue-PaysOnce (parse_amount amount_decimal) w w _ refl (λ amount a.
        continue-PaysOnce (public_account_id_from_wallet j i (paths_new home) w.disk) w w _ refl
          (λ from_id f.
            continue-PaysOnce (open_wallet lez (paths_new home) w).0 w
              (open_wallet lez (paths_new home) w).1 _ refl
              (λ core o.
                continue-PaysOnce
                  (agent_private_keys_from_wallet j i (paths_new home) (opened_disk home w)) w
                  (open_wallet lez (paths_new home) w).1 _ refl
                  (λ (own_id, npk, vpk) k.
                    continue-PaysOnce (check_recipient j hex i lez own_id recipient) w
                      (open_wallet lez (paths_new home) w).1 _ refl
                      (λ u c.
                        let (to_id, parsed, same) = check_recipient-ok own_id recipient c in
                        send-PaysOnce lez core (shielded_transfer from_id npk vpk 0 amount) w
                          (open_wallet lez (paths_new home) w).1 hex.encode refl
                          (
                            from_id,
                            own_id,
                            to_id,
                            npk,
                            vpk,
                            amount,
                            refl,
                            f,
                            k,
                            (parsed, same),
                            (
                              parse_amount-ok amount_decimal a,
                              parse_u128_bound _ (parse_amount-ok amount_decimal a),
                            ),
                          ))))))
