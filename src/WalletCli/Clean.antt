-- ===== src/WalletCli/Clean.antt =====
-- What a run of the tool should leave: one line, and no string that is not freed.
use lp_0008_logos_agent_modu.Base.{
  ◌≤◌, ◌≡◌, Bool, true, false, ◌||◌, none, some, List, [], ◌∷◌, arith, length, Text,
}
use lp_0008_logos_agent_modu.Provider.Crates.{Json, Identity}
use lp_0008_logos_agent_modu.Ffi.{has_nul, CHeap}
use lp_0008_logos_agent_modu.WalletCli.{
  ProgramCmd, deploy, call, query, Cmd, ensure_account, npk, balance, send, sync, history, program,
  Finish, emit,
}

abbrev pub any_nul : List Text → Bool
any_nul [] = false
any_nul (s ∷ ss) = has_nul s || any_nul ss

abbrev pub program_args : ProgramCmd → List Text
program_args (deploy home passphrase binary) = home ∷ passphrase ∷ binary ∷ []
program_args (call home passphrase program_id instruction params) =
    home ∷ passphrase ∷ program_id ∷ instruction ∷ params ∷ []
program_args (query home program_id params) = home ∷ program_id ∷ params ∷ []

-- The texts of a subcommand.
abbrev pub args_of : Cmd → List Text
args_of (ensure_account home passphrase) = home ∷ passphrase ∷ []
args_of (npk home passphrase) = home ∷ passphrase ∷ []
args_of (balance home passphrase) = home ∷ passphrase ∷ []
args_of (send home passphrase to amount) = home ∷ passphrase ∷ to ∷ amount ∷ []
args_of (sync home) = home ∷ []
args_of (history home passphrase limit) = home ∷ passphrase ∷ []
args_of (program cmd) = program_args cmd

-- A panic, which only a nul character causes, or one line, and the strings that are live are
-- those from before.
abbrev pub Clean : {i : Identity} → CHeap → List Text → Finish i → Type 0
Clean before args none = any_nul args ≡ true
Clean before args (some (code, lines, st)) =
    (length lines ≡ 1)
    × (code ≤ 1)
    × (st.heap.live ≡ before.live)
    × (st.heap.broken ≡ before.broken)

pub emit_bound : (j : Json) (json : Text) → emit j json ≤ 1
unfolding emit
emit_bound j json = ground arith
