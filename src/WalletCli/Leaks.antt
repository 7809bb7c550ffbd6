-- ===== src/WalletCli/Leaks.antt =====
-- The tool frees every string that it gets.
use lp_0008_logos_agent_modu.Base.{
  ◌≤◌, ◌≡◌, refl, inl, inr, Bool, true, false, Bool-cases, none, [], ◌∷◌, List, All, arith, Result,
  ok, err, Text,
}
use lp_0008_logos_agent_modu.Keys.{Sha256, Base58}
use lp_0008_logos_agent_modu.Keystore.Crates.{Crypto}
use lp_0008_logos_agent_modu.Provider.Crates.{Json, HexCodec, Identity, Wallet}
use lp_0008_logos_agent_modu.Provider.{ProviderError}
use lp_0008_logos_agent_modu.Provider.World.{World}
use lp_0008_logos_agent_modu.Ffi.{CHeap, State}
use lp_0008_logos_agent_modu.WalletCli.{
  ProgramCmd, deploy, call, query, Cmd, ensure_account, npk, balance, send, sync, history, program,
  Finish, main_program, main,
}
use lp_0008_logos_agent_modu.WalletCli.Clean.{any_nul, program_args, args_of, Clean, emit_bound}
use lp_0008_logos_agent_modu.WalletCli.Promise.{
  HasNoNul, sync_line, Promise, Fulfils, Plan, printing, syncing, plan, promise, main-Fulfils,
}

any_nul-All : (args : List Text) → any_nul args ≡ false → All HasNoNul args
any_nul-All [] h = tt
any_nul-All (s ∷ args) h = (ground arith, any_nul-All args (ground arith))

module _ (j : Json) (display : ProviderError → Text) (hex : HexCodec) {i : Identity}
    (lez : Wallet i) (c : Crypto) (sha : Sha256) (b58 : Base58) where
  main_program_panic :
      (cmd : ProgramCmd) (st : State i)
      → any_nul (program_args cmd) ≡ true
      → main_program j display hex i lez c sha b58 cmd st ≡ none
  unfolding main_program
  main_program_panic (deploy home passphrase binary) st nul = ground arith
  main_program_panic (call home passphrase program_id instruction params) st nul = ground arith
  main_program_panic (query home program_id params) st nul = ground arith

  main_panic :
      (entropy : lez.Entropy) (rng : c.Rng) (cmd : Cmd) (st : State i)
      → any_nul (args_of cmd) ≡ true
      → main j display hex i lez c sha b58 entropy rng cmd st ≡ none
  unfolding main
  main_panic entropy rng (ensure_account home passphrase) st nul = ground arith
  main_panic entropy rng (npk home passphrase) st nul = ground arith
  main_panic entropy rng (balance home passphrase) st nul = ground arith
  main_panic entropy rng (send home passphrase to amount) st nul = ground arith
  main_panic entropy rng (sync home) st nul = ground arith
  main_panic entropy rng (history home passphrase limit) st nul = ground arith
  main_panic entropy rng (program cmd) st nul = main_program_panic cmd st nul

  sync_bound : (r : Result Bool ProviderError) → (sync_line r).0 ≤ 1
  sync_bound (ok true) = omega arith
  sync_bound (ok false) = omega arith
  sync_bound (err e) = omega arith

  promise_bound : (p : Plan i) (w : World i) → (promise j display p w).0.0 ≤ 1
  promise_bound (printing style op) w = emit_bound j _
  promise_bound (syncing op) w = sync_bound (op w).0

  Fulfils-Clean :
      (before : CHeap) (args : List Text) (p : Promise i) (r : Finish i)
      → p.0.0 ≤ 1
      → Fulfils before p r
      → Clean before args r
  Fulfils-Clean before args p r bound (st, ended, world, live, whole) =
      rw ended (refl, bound, live, whole)

  -- Whatever the subcommand, the tool panics, if and only if an argument holds a nul character, or
  -- it prints one line, exits with 0 or 1, and leaves the strings of the C side as they were: each
  -- string that it was given is freed exactly once.
  pub main-Clean :
      (entropy : lez.Entropy) (rng : c.Rng) (cmd : Cmd) (st : State i)
      → let r = main j display hex i lez c sha b58 entropy rng cmd st in
        Clean st.heap (args_of cmd) r × (any_nul (args_of cmd) ≡ true → r ≡ none)
  main-Clean entropy rng cmd st = (
    elim (Bool-cases (any_nul (args_of cmd))) [
      | inl nul ↦ rw (main_panic entropy rng cmd st nul) nul
      | inr plain ↦
          Fulfils-Clean st.heap (args_of cmd)
            (promise j display (plan j display hex lez c sha b58 entropy rng cmd) st.world) _
            (promise_bound (plan j display hex lez c sha b58 entropy rng cmd) st.world)
            (main-Fulfils j display hex lez c sha b58 entropy rng cmd st
              (any_nul-All (args_of cmd) plain))
    ],
    main_panic entropy rng cmd st,
  )
