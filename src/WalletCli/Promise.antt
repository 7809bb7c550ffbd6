-- ===== src/WalletCli/Promise.antt =====
-- What the tool promises, without pointers and C strings: the operation that a subcommand stands
-- for, the line for its result, and the exit code.

use lp_0008_logos_agent_modu.Base.{
  ℕ, suc, ◌≡◌, refl, Bool, true, false, some, [], ◌∷◌, ==_refl, All, Result, ok, err, Text, lit,
}
use lp_0008_logos_agent_modu.Keys.{Sha256, Base58}
use lp_0008_logos_agent_modu.Keystore.Crates.{Crypto}
use lp_0008_logos_agent_modu.Provider.Crates.{Json, HexCodec, Identity, Wallet}
use lp_0008_logos_agent_modu.Provider.{ProviderError}
use lp_0008_logos_agent_modu.Provider.Storage.{get_npk}
use lp_0008_logos_agent_modu.Provider.World.{World, Act, reading}
use lp_0008_logos_agent_modu.Provider.Transfers.{send_shielded}
use lp_0008_logos_agent_modu.Provider.Account
use lp_0008_logos_agent_modu.Provider.Programs.{program_call, program_deploy}
use lp_0008_logos_agent_modu.Provider.Queries.{
  get_history, get_balance, sync_private, program_query,
}
use lp_0008_logos_agent_modu.Ffi.{
  valid, has_nul, to_cstring, error_result, CHeap, State, respond, with_arg, run_op,
  lez_wallet_ensure_account, lez_wallet_history, lez_wallet_program_call, lez_wallet_npk,
  lez_wallet_balance, lez_wallet_sync_private, lez_wallet_send, lez_wallet_program_query,
  lez_wallet_program_deploy,
}
use lp_0008_logos_agent_modu.Ffi.Exports.{result_text}
use lp_0008_logos_agent_modu.Ffi.Heap.{free_one_more}
use lp_0008_logos_agent_modu.WalletCli.{
  ProgramCmd, deploy, call, query, Cmd, ensure_account, npk, balance, send, sync, history, program,
  Finish, take, wrap_ok, emit, print_wrapped, print_bare, main_program, print_sync, main,
}
use lp_0008_logos_agent_modu.WalletCli.Clean.{program_args, args_of}

abbrev pub HasNoNul : Text → Type 0
HasNoNul s = has_nul s ≡ false

abbrev pub sync_line : Result Bool ProviderError → ℕ × Text
sync_line (ok true) = (0, lit "{\"ok\": true}")
sync_line (ok false) = (1, lit "{\"error\": \"sync failed\"}")
sync_line (err e) = (1, lit "{\"error\": \"sync failed\"}")

-- How a result is printed.
pub data Style : Type 0 where
  wrapped bare : Style

abbrev pub line_of : Style → Text → Text
line_of wrapped s = wrap_ok s
line_of bare s = s

-- The operation that a subcommand runs, with the form of its line.
pub data Plan (i : Identity) : Type 0 where
  printing : Style → Act i Text → Plan i
  syncing : Act i Bool → Plan i

-- The exit code and the line, and what became of the world.
abbrev pub Promise : Identity → Type 0
Promise i = (ℕ × Text) × World i

-- The run ends, prints the line and exits with the code, the world is the one promised, and the
-- strings of the C side are those from before.
abbrev pub Fulfils : {i : Identity} → CHeap → Promise i → Finish i → Type 0
Fulfils {i} before p r =
    (st : State i) × (r ≡ some (p.0.0, p.0.1 ∷ [], st))
    × (st.world ≡ p.1)
    × (st.heap.live ≡ before.live)
    × (st.heap.broken ≡ before.broken)

module _ (j : Json) (display : ProviderError → Text) {i : Identity} where
  -- The exit code is read off the line.
  abbrev pub answered : Style → Result Text ProviderError × World i → Promise i
  answered style r =
      let line = line_of style (result_text display r.0) in ((emit j line, line), r.1)

  abbrev pub promise : Plan i → World i → Promise i
  promise (printing style op) w = answered style (op w)
  promise (syncing op) w = (sync_line (op w).0, (op w).1)

  taken :
      (r : Result Text ProviderError × World i) (heap : CHeap)
      → take (respond display r heap) ≡ (
        result_text display r.0,
        record { world = r.1; heap = record heap { next = suc heap.next } },
      )
  unfolding take respond to_cstring error_result
  taken (ok s, w) heap = rw (free_one_more, ==_refl heap.next) refl
  taken (err e, w) heap = rw (free_one_more, ==_refl heap.next) refl

  pub print_wrapped-Fulfils :
      (op : Act i Text) (st : State i)
      → Fulfils st.heap (answered wrapped (op st.world)) (print_wrapped j (run_op display op st))
  unfolding print_wrapped run_op
  print_wrapped-Fulfils op st = rw taken (_, refl, refl, refl, refl)

  pub print_bare-Fulfils :
      (op : Act i Text) (st : State i)
      → Fulfils st.heap (answered bare (op st.world)) (print_bare j (run_op display op st))
  unfolding print_bare run_op
  print_bare-Fulfils op st = rw taken (_, refl, refl, refl, refl)

module _ (j : Json) (display : ProviderError → Text) (hex : HexCodec) {i : Identity}
    (lez : Wallet i) (c : Crypto) (sha : Sha256) (b58 : Base58) where
  -- What a program command stands for.
  abbrev pub program_plan : ProgramCmd → Plan i
  program_plan (deploy home passphrase binary) =
      printing wrapped (program_deploy j hex i lez home passphrase binary)
  program_plan (call home passphrase program_id instruction params) =
      printing wrapped
        (program_call j hex i lez c sha b58 home passphrase program_id instruction params)
  program_plan (query home program_id params) =
      printing bare (program_query j i lez home program_id params)

  -- What a subcommand stands for.
  abbrev pub plan : lez.Entropy → c.Rng → Cmd → Plan i
  plan entropy rng (ensure_account home passphrase) =
      printing wrapped (Account.ensure_account c sha b58 i lez home passphrase entropy rng)
  plan entropy rng (npk home passphrase) = printing wrapped (reading (get_npk j home passphrase))
  plan entropy rng (balance home passphrase) =
      printing wrapped (get_balance j i lez home passphrase)
  plan entropy rng (send home passphrase to amount) =
      printing wrapped (send_shielded j hex i lez home passphrase to amount)
  plan entropy rng (sync home) = syncing (sync_private j i lez home)
  plan entropy rng (history home passphrase limit) =
      printing bare (get_history j i lez c sha b58 home passphrase limit)
  plan entropy rng (program cmd) = program_plan cmd

  main_program-Fulfils :
      (cmd : ProgramCmd) (st : State i)
      → All HasNoNul (program_args cmd)
      → Fulfils st.heap
          (promise j display (program_plan cmd) st.world)
          (main_program j display hex i lez c sha b58 cmd st)
  unfolding main_program lez_wallet_program_deploy lez_wallet_program_call lez_wallet_program_query
      with_arg
  main_program-Fulfils (deploy home passphrase binary) st (h, (p, (b, _))) =
      rw (h, p, b) (print_wrapped-Fulfils j display _ st)
  main_program-Fulfils (call home passphrase program_id instruction params) st
        (h, (p, (d, (n, (a, _))))) =
      rw (h, p, d, n, a) (print_wrapped-Fulfils j display _ st)
  main_program-Fulfils (query home program_id params) st (h, (d, (a, _))) =
      rw (h, d, a) (print_bare-Fulfils j display _ st)

  sync-Fulfils :
      (home : Text) (st : State i)
      → Fulfils st.heap (promise j display (syncing (sync_private j i lez home)) st.world) (
          print_sync j display hex i lez c sha b58
            (lez_wallet_sync_private display j hex i lez (valid home) st))
  unfolding lez_wallet_sync_private print_sync
  sync-Fulfils home st = of_result (sync_private j i lez home st.world)
    where
      of_result :
          (r : Result Bool ProviderError × World i)
          → Fulfils st.heap
              (sync_line r.0, r.1)
              (print_sync j display hex i lez c sha b58
                (elim r.0 [ err e ↦ false | ok b ↦ b ], record st { world = r.1 }))
      of_result (ok true, w) = (_, refl, refl, refl, refl)
      of_result (ok false, w) = (_, refl, refl, refl, refl)
      of_result (err e, w) = (_, refl, refl, refl, refl)

  -- Pointers, C strings and their release are not seen: without a nul character in its arguments,
  -- a subcommand ends, runs the operation that it stands for once, prints one line for its result,
  -- exits with the code of that line, and leaves the strings of the C side as they were.
  pub main-Fulfils :
      (entropy : lez.Entropy) (rng : c.Rng) (cmd : Cmd) (st : State i)
      → All HasNoNul (args_of cmd)
      → Fulfils st.heap
          (promise j display (plan entropy rng cmd) st.world)
          (main j display hex i lez c sha b58 entropy rng cmd st)
  unfolding main lez_wallet_ensure_account lez_wallet_npk lez_wallet_balance lez_wallet_send
      lez_wallet_history with_arg
  main-Fulfils entropy rng (ensure_account home passphrase) st (h, (p, _)) =
      rw (h, p) (print_wrapped-Fulfils j display _ st)
  main-Fulfils entropy rng (npk home passphrase) st (h, (p, _)) =
      rw (h, p) (print_wrapped-Fulfils j display _ st)
  main-Fulfils entropy rng (balance home passphrase) st (h, (p, _)) =
      rw (h, p) (print_wrapped-Fulfils j display _ st)
  main-Fulfils entropy rng (send home passphrase to amount) st (h, (p, (t, (a, _)))) =
      rw (h, p, t, a) (print_wrapped-Fulfils j display _ st)
  main-Fulfils entropy rng (sync home) st (h, _) = rw h (sync-Fulfils home st)
  main-Fulfils entropy rng (history home passphrase limit) st (h, (p, _)) =
      rw (h, p) (print_bare-Fulfils j display _ st)
  main-Fulfils entropy rng (program cmd) st h = main_program-Fulfils cmd st h
