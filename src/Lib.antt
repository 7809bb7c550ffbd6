-- ===== src/Lib.antt =====
-- A model of the Rust programs of this repository, with theorems.
--
-- The command line tool agent-cli deploys the agent modules: it spawns the `logoscore` daemon, waits
-- until it answers, loads the modules of a directory, sets the limits of the agent and can fund it.
-- All of this happens through subprocesses. The crate lez-wallet-core holds the wallet: key
-- derivation, the encrypted key at rest, the operations on the LEZ network, and the functions that
-- the Qt module calls through C.
--
-- - Base: the names that all modules share. Std: what the sources use of the standard library of
--   Rust (texts as lists of scalar values, UTF-8, `replace`, `split`, `trim`, decimal numbers, bits,
--   files). These two model the language, not the repository.
-- - AgentCli: agent-cli/src/main.rs. JsonStr is `json_str`; CallExpr is `parse_call_expr` and
--   `fund_call_expr`; World is the host, which answers commands and may depend on all that was run
--   before, and the trace of commands, lines, time and children; Calls is `logos_call`; Wait is
--   `wait_for_capability` and `wait_for_daemon`; Modules is `load_all_modules`; Commands is the rest,
--   from `cmd_deploy` to `main`. The functions keep their names. `with_context` and `bail!` build
--   lists of messages; a panic is an outcome. World.Success says what a command needs of the host to
--   succeed, Wait.Liveness and Commands.Success that the commands then do, and Commands.Diagram is
--   the order in which `agent up` may act, as a diagram of states. PathBuf is a text. The parsing by
--   clap and the unused `sequencer` are not modelled.
-- - Keys: lez-wallet-module/lez-wallet-core/src/keys.rs. The hash and base58 are parameters. The unit
--   tests of the file are in Tests.Vectors, where SHA-256 and base58 are written out to run them.
-- - Keystore: lez-wallet-module/lez-wallet-core/src/keystore.rs. The crates that it calls are the
--   record Crates.Crypto, and what they document is Crates.IsSound. The unit tests of
--   the file are in Tests.Units and are run with stand-ins for the crates. Zeroing is not modelled.
-- - Provider: lez-wallet-module/lez-wallet-core/src/provider.rs. Storage holds the walks over the
--   wallet storage, Account is `ensure_account` with `account_id_from_keystore`, Transfers the two
--   `send_` functions, Programs `program_call` and `program_deploy`, Queries the rest. The functions
--   keep their names; World has the disk, the requests that were handed to the sequencer and the
--   lines on the standard error. `serde_json`, `hex` and the LEZ crates are the records of Crates; a
--   future is run to its end, and what the sequencer answers may depend on all that was sent before.
--   Account.Shows and Programs.Deploys say what is printed and sent on every way out.
-- - Ffi: lez-wallet-module/lez-wallet-core/src/ffi.rs. A C argument is null, no UTF-8 or a text; the
--   strings that are returned live in a heap by address. What thiserror derives is a parameter.
--   Exports is what a caller may rely on, and Session a caller that makes one call after another.
-- - WalletCli: lez-wallet-module/lez-agent-cli/src/main.rs, which calls the functions of Ffi.
--   Promise is what a run owes its caller; ExitCodes relates the exit code to the error, where
--   serde_json is said to read a JSON string below `error`, and to refuse what is none.
--
-- The polling loops run on fuel. One round sleeps for 500 ms, so that timeout / 500 + 2 rounds are
-- enough, whatever the duration of the commands; that the fuel is never used up is proved. All other
-- loops are structural. A command that never returns is outside the model.
--
-- Not modelled: the placeholders under lez-build, the C++ modules, scripts and documents.
pub mod Base
pub mod Std
pub mod AgentCli
pub mod Keys
pub mod Keystore
pub mod Provider
pub mod Ffi
pub mod WalletCli
