-- ===== src/WalletCli.antt =====
-- lez-wallet-module/lez-agent-cli/src/main.rs: the command line tool of the wallet, over the C
-- functions.
pub mod Clean
pub mod Leaks
pub mod Promise
pub mod ExitCodes
mod Tests
use lp_0008_logos_agent_modu.Base.{
  ℕ, ◌+◌, Bool, true, false, Option, none, some, List, [], ◌∷◌, ◌++◌, if◌then◌else◌, ok, err, Text,
  lit,
}
use lp_0008_logos_agent_modu.Keys.{Sha256, Base58}
use lp_0008_logos_agent_modu.Keystore.Crates.{Crypto}
use lp_0008_logos_agent_modu.Std.Strings.{as_bytes, starts_with_char}
use lp_0008_logos_agent_modu.Provider.Crates.{Json, HexCodec, Identity, Wallet}
use lp_0008_logos_agent_modu.Provider.{ProviderError}
use lp_0008_logos_agent_modu.Provider.Queries.{ℤ}
use lp_0008_logos_agent_modu.Ffi.{
  CArg, valid, has_nul, State, lookup_cell, lez_wallet_free_string, lez_wallet_ensure_account,
  lez_wallet_history, lez_wallet_program_call, lez_wallet_npk, lez_wallet_balance,
  lez_wallet_sync_private, lez_wallet_send, lez_wallet_program_query, lez_wallet_program_deploy,
}

pub data ProgramCmd : Type 0 where
  deploy : Text → Text → Text → ProgramCmd
  call : Text → Text → Text → Text → Text → ProgramCmd
  query : Text → Text → Text → ProgramCmd

-- The subcommands with their options in the order of their declaration.
pub data Cmd : Type 0 where
  ensure_account npk balance : Text → Text → Cmd
  send : Text → Text → Text → Text → Cmd
  sync : Text → Cmd
  history : Text → Text → ℤ → Cmd
  program : ProgramCmd → Cmd

-- The exit code, the lines printed, and the state; `none` is a panic.
abbrev pub Finish : Identity → Type 0
Finish i = Option (ℕ × List Text × State i)

-- `CString::new(s).expect(…)`
abbrev pub with_cs : {A : Type 0} → Text → (CArg → Option A) → Option A
with_cs s k = if has_nul s then none else k (valid s)

-- The string behind a pointer is copied and freed.
unfoldable pub take : {i : Identity} → ℕ × State i → Text × State i
take (p, st) =
    let s : Text = elim (lookup_cell p st.heap.live) [ none ↦ [] | some s ↦ s ] in
    (s, record st { heap = lez_wallet_free_string (some p) st.heap })

unfoldable pub wrap_ok : Text → Text
wrap_ok result =
    if starts_with_char b'{' result then result else lit "{\"ok\": \"" ++ (result ++ lit "\"}")

module _ (j : Json) where
  -- The exit code after a line of JSON.
  unfoldable pub emit : Text → ℕ
  emit json = elim (j.from_slice (as_bytes json)) [
    | err e ↦ 0
    | ok v ↦ elim (j.get (lit "error") v) [ none ↦ 0 | some e ↦ 1 ]
  ]

  unfoldable pub print_wrapped : {i : Identity} → ℕ × State i → Finish i
  print_wrapped r = let json = wrap_ok (take r).0 in some (emit json, json ∷ [], (take r).1)

  unfoldable pub print_bare : {i : Identity} → ℕ × State i → Finish i
  print_bare r = some (emit (take r).0, (take r).0 ∷ [], (take r).1)

  module _ (display : ProviderError → Text) (hex : HexCodec) (i : Identity) (lez : Wallet i)
      (c : Crypto) (sha : Sha256) (b58 : Base58) where
    unfoldable pub main_program : ProgramCmd → State i → Finish i
    main_program (deploy home passphrase binary) st = with_cs home (λ h. with_cs passphrase (λ p.
        with_cs binary
          (λ b. print_wrapped (lez_wallet_program_deploy display j hex i lez h p b st))))
    main_program (call home passphrase program_id instruction params) st = with_cs home (λ h.
        with_cs passphrase (λ p. with_cs program_id (λ d. with_cs instruction (λ n.
          with_cs params (λ a.
            print_wrapped (lez_wallet_program_call display j hex i lez c sha b58 h p d n a st))))))
    main_program (query home program_id params) st = with_cs home (λ h. with_cs program_id (λ d.
        with_cs params (λ a. print_bare (lez_wallet_program_query display j hex i lez h d a st))))

    -- `println!` of the answer, and `exit(1)` where it is `false`.
    unfoldable pub print_sync : Bool × State i → Finish i
    print_sync (true, st) = some (0, lit "{\"ok\": true}" ∷ [], st)
    print_sync (false, st) = some (1, lit "{\"error\": \"sync failed\"}" ∷ [], st)

    unfoldable pub main : lez.Entropy → c.Rng → Cmd → State i → Finish i
    main entropy rng (ensure_account home passphrase) st = with_cs home (λ h.
        with_cs passphrase (λ p.
          print_wrapped
            (lez_wallet_ensure_account display j hex i lez c sha b58 entropy rng h p st)))
    main entropy rng (npk home passphrase) st =
        with_cs home
          (λ h. with_cs passphrase (λ p. print_wrapped (lez_wallet_npk display j hex i lez h p st)))
    main entropy rng (balance home passphrase) st = with_cs home (λ h.
        with_cs passphrase (λ p. print_wrapped (lez_wallet_balance display j hex i lez h p st)))
    main entropy rng (send home passphrase to amount) st = with_cs home (λ h.
        with_cs passphrase (λ p. with_cs to (λ t.
          with_cs amount (λ a. print_wrapped (lez_wallet_send display j hex i lez h p t a st)))))
    main entropy rng (sync home) st =
        with_cs home (λ h. print_sync (lez_wallet_sync_private display j hex i lez h st))
    main entropy rng (history home passphrase limit) st = with_cs home (λ h.
        with_cs passphrase
          (λ p. print_bare (lez_wallet_history display j hex i lez c sha b58 h p limit st)))
    main entropy rng (program cmd) st = main_program cmd st
