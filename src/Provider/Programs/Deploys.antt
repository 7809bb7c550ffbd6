-- ===== src/Provider/Programs/Deploys.antt =====
-- What `program_deploy` sends, and the id that it returns.
use lp_0008_logos_agent_modu.Base.{
  map_err, map_err-ok, ℕ, ◌<◌, ◌≡◌, refl, sym, ap, ◌∙◌, ◌⊎◌, inl, inr, List, [], ◌∷◌, ◌++◌, length,
  All, Result, ok, err, Text,
}
use lp_0008_logos_agent_modu.Keys.{Bytes}
use lp_0008_logos_agent_modu.Std.Disk.{read}
use lp_0008_logos_agent_modu.Provider.Crates.{Json, HexCodec, Identity, program_deployment, Wallet}
use lp_0008_logos_agent_modu.Provider.{ProviderError, paths_new, io}
use lp_0008_logos_agent_modu.Provider.World.{World, continue, continue-cases, open_wallet}
use lp_0008_logos_agent_modu.Provider.Programs.{
  u32_mod, id_hex, parse_program_id, send_transaction, program_deploy,
}
use lp_0008_logos_agent_modu.Provider.Programs.Words.{DecodesHex, parse_program_id-id_hex}

-- The id of a program is eight words of 32 bits.
abbrev pub HasWordIds : {i : Identity} → Wallet i → Type 0
HasWordIds lez =
    (bytecode : Bytes) (pid : List ℕ)
    → lez.program_id bytecode ≡ ok pid
    → All (λ n. n < u32_mod) pid × (length pid ≡ 8)

module _ (j : Json) (hex : HexCodec) (i : Identity) (lez : Wallet i) where
  -- Either it failed and nothing was sent, or one deployment of the file was sent, and the id that
  -- is returned is read as the id of the program.
  abbrev pub DeploysOnce : Text → Text → World i → Result Text ProviderError × World i → Type 0
  DeploysOnce home binary_path w r =
      (((e : ProviderError) × (r.0 ≡ err e)) × (r.1.sent ≡ w.sent))
      ⊎ ((bytecode : Bytes) × (pid : List ℕ) × (r.1.sent
            ≡ w.sent ++ (program_deployment bytecode ∷ []))
          × (read binary_path (open_wallet lez (paths_new home) w).1.disk ≡ ok bytecode)
          × (lez.program_id bytecode ≡ ok pid)
          × ((s : Text) → r.0 ≡ ok s → parse_program_id hex s ≡ ok pid))

  after_sending :
      (hash : Result (List ℕ) ProviderError) (u : World i) (home binary_path : Text) (w : World i)
      (bytecode : Bytes) (pid : List ℕ)
      → u.sent ≡ w.sent ++ (program_deployment bytecode ∷ [])
      → read binary_path (open_wallet lez (paths_new home) w).1.disk ≡ ok bytecode
      → lez.program_id bytecode ≡ ok pid
      → parse_program_id hex (id_hex pid) ≡ ok pid
      → DeploysOnce home binary_path w (continue {B = Text} (hash, u) (λ _ v. (ok (id_hex pid), v)))
  after_sending (ok h) u home binary_path w bytecode pid one found named parsed = inr (
    bytecode,
    pid,
    one,
    found,
    named,
    λ s e. let same : id_hex pid ≡ s = cc in ap (parse_program_id hex) (sym same) ∙ parsed,
  )
  after_sending (err m) u home binary_path w bytecode pid one found named parsed =
      inr (bytecode, pid, one, found, named, λ s e. absurd (cc))

  -- `program_deploy` fails and sends nothing, or sends exactly one deployment, of the bytes of the
  -- file. Where it returns an id, `program_call` reads it as the id of this program. `hex` decodes
  -- what is encoded, and the ids of programs are eight words of 32 bits.
  pub program_deploy-DeploysOnce :
      (home passphrase binary_path : Text) (w : World i)
      → DecodesHex hex
      → HasWordIds lez
      → DeploysOnce home binary_path w (program_deploy j hex i lez home passphrase binary_path w)
  unfolding program_deploy open_wallet send_transaction
  program_deploy-DeploysOnce home passphrase binary_path w decodes ids =
      let v = (open_wallet lez (paths_new home) w).1 in
      let D = DeploysOnce home binary_path w in
      continue-cases D (open_wallet lez (paths_new home) w).0 v _ (λ e. inl ((e, refl), refl))
        (λ core o.
          continue-cases D (map_err io (read binary_path v.disk)) v _ (λ e. inl ((e, refl), refl))
            (λ bytecode f.
              continue-cases D (map_err _ (lez.program_id bytecode)) v _
                (λ e. inl ((e, refl), refl))
                (λ pid n.
                  let named = map_err-ok _ (lez.program_id bytecode) n in
                  let (small, eight) = ids bytecode pid named in
                  after_sending _ _ home binary_path w bytecode pid refl
                    (map_err-ok io (read binary_path v.disk) f) named
                    (parse_program_id-id_hex hex pid decodes small eight))))
