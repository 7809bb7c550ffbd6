-- ===== src/Provider/Programs/Safety.antt =====
-- What `program_call` sends.
use lp_0008_logos_agent_modu.Base.{
  map_err, map_err-ok, Result-cases, ℕ, ◌≡◌, refl, ap, inl, inr, List, [], ◌∷◌, ◌++◌, ok, Text,
}
use lp_0008_logos_agent_modu.Keys.{Sha256, Base58}
use lp_0008_logos_agent_modu.Keystore.Crates.{Crypto}
use lp_0008_logos_agent_modu.Std.Strings.{as_bytes}
use lp_0008_logos_agent_modu.Provider.Crates.{
  Json, HexCodec, Identity, Request, public_transaction, Wallet,
}
use lp_0008_logos_agent_modu.Provider.{paths_new}
use lp_0008_logos_agent_modu.Provider.Account.{account_id_from_keystore}
use lp_0008_logos_agent_modu.Provider.World.{World, continue, open_wallet}
use lp_0008_logos_agent_modu.Provider.Transfers.Safety.{PaysOnce, continue-PaysOnce}
use lp_0008_logos_agent_modu.Provider.Programs.Meant.{
  AreAccounts, AreInstruction, IsProgramId, AreKeysOf, parse_accounts-AreAccounts,
  parse_instruction-AreInstruction, parse_program_id-IsProgramId, signing_keys-AreKeysOf,
}
use lp_0008_logos_agent_modu.Provider.Programs.{
  parse_program_id, parse_accounts, parse_instruction, signing_keys, send_transaction, fetch_nonces,
  program_call,
}

module _ (j : Json) (hex : HexCodec) (i : Identity) (lez : Wallet i) (c : Crypto) (sha : Sha256)
    (b58 : Base58) where
  -- A transaction for the program, the accounts and the instruction that the arguments stand for,
  -- with the nonces that the sequencer knows for the accounts, signed with the keys that the opened
  -- wallet has for them. The caller is the account of the key file.
  abbrev pub IsCall : Text → Text → Text → Text → World i → Request i → Type 0
  IsCall home passphrase program_id params_json w t =
      (caller_id : i.AccountId) × (core : lez.Core) × (params : j.Value) × (pid : List ℕ)
      × (ids : List i.AccountId) × (nonces : List i.Nonce) × (words : List ℕ) × (keys : List
          i.SigningKey)
      × (t ≡ public_transaction pid ids nonces words keys)
      × (account_id_from_keystore c sha b58 i (paths_new home) passphrase w.disk ≡ ok caller_id)
      × ((open_wallet lez (paths_new home) w).0 ≡ ok core)
      × (j.from_slice (as_bytes params_json) ≡ ok params)
      × AreAccounts j hex i caller_id params ids
      × AreInstruction j hex i params words
      × IsProgramId hex program_id pid
      × (lez.get_accounts_nonces core w.sent ids ≡ ok nonces)
      × AreKeysOf j hex i lez core ids keys

  send_transaction-PaysOnce :
      {Meant : Request i → Type 0} (core : lez.Core) (context : Text) (t : Request i)
      (w v : World i)
      → v.sent ≡ w.sent
      → Meant t
      → PaysOnce Meant w.sent (
          continue
            (send_transaction j hex i lez core context t v)
            (λ hash u. (ok (hex.encode hash), u)))
  unfolding send_transaction
  send_transaction-PaysOnce core context t w v same meant =
      elim (Result-cases (lez.send core v.sent t)) [
        | inl (hash, sent) ↦ rw sent (inr (t, ap (λ s. s ++ (t ∷ [])) same, meant))
        | inr (e, refused) ↦ rw refused (inr (t, ap (λ s. s ++ (t ∷ [])) same, meant))
      ]

  -- `program_call` fails and sends nothing, or sends exactly one transaction, for the program, the
  -- accounts and the instruction that its arguments spell, and only if the passphrase opens the key
  -- file. The caller stands for missing accounts, and of an instruction word that is no `u32`, the
  -- low 32 bits are sent.
  pub program_call-PaysOnce :
      (home passphrase program_id instruction params_json : Text) (w : World i)
      → PaysOnce
          (IsCall home passphrase program_id params_json w)
          w.sent
          (program_call j hex i lez c sha b58 home passphrase program_id instruction params_json w)
  unfolding program_call open_wallet fetch_nonces
  program_call-PaysOnce home passphrase program_id instruction params_json w =
      let v = (open_wallet lez (paths_new home) w).1 in
      continue-PaysOnce (account_id_from_keystore c sha b58 i (paths_new home) passphrase w.disk) w
        w _ refl
        (λ caller_id k.
          continue-PaysOnce (open_wallet lez (paths_new home) w).0 w v _ refl (λ core o.
            continue-PaysOnce (map_err _ (j.from_slice (as_bytes params_json))) w v _ refl
              (λ params p.
                continue-PaysOnce (parse_accounts j hex i caller_id params) w v _ refl (λ ids a.
                  continue-PaysOnce (parse_instruction j hex i params) w v _ refl (λ words n.
                    continue-PaysOnce (parse_program_id hex program_id) w v _ refl (λ pid d.
                      continue-PaysOnce (fetch_nonces j hex i lez core ids v).0 w v _ refl
                        (λ nonces f.
                          send_transaction-PaysOnce core _
                            (public_transaction pid ids nonces words
                              (signing_keys j hex i lez core ids))
                            w v refl
                            (
                              caller_id,
                              core,
                              params,
                              pid,
                              ids,
                              nonces,
                              words,
                              signing_keys j hex i lez core ids,
                              refl,
                              k,
                              o,
                              map_err-ok _ (j.from_slice (as_bytes params_json)) p,
                              parse_accounts-AreAccounts j hex i caller_id params a,
                              parse_instruction-AreInstruction j hex i params n,
                              parse_program_id-IsProgramId hex program_id d,
                              map_err-ok _ (lez.get_accounts_nonces core w.sent ids) f,
                              signing_keys-AreKeysOf j hex i lez core ids,
                            ))))))))
