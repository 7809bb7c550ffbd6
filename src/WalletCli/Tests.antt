-- ===== src/WalletCli/Tests.antt =====
-- The tool at concrete data.
use lp_0008_logos_agent_modu.Base.{
  true, All, inl, arith, ◌≡◌, refl, ◌++◌, ◌&&◌, Text, [], ◌∷◌, eq_text, drop, if◌then◌else◌, some,
  none, ok, err, lit,
}
use lp_0008_logos_agent_modu.Std.Strings.{starts_with, as_bytes, IsScalar}
use lp_0008_logos_agent_modu.AgentCli.JsonStr.Decode.{read_literal}
use lp_0008_logos_agent_modu.AgentCli.JsonStr.Bytes.{is_some, read_literal-as_bytes}
use lp_0008_logos_agent_modu.Provider.Crates.{Json}
use lp_0008_logos_agent_modu.Std.Disk.{read}
use lp_0008_logos_agent_modu.Provider.{json}
use lp_0008_logos_agent_modu.Provider.Storage.{read_storage, get_npk}
use lp_0008_logos_agent_modu.Provider.World.{reading}
use lp_0008_logos_agent_modu.Ffi.{State, envelope}
use lp_0008_logos_agent_modu.Ffi.Envelope.{is_printable}
use lp_0008_logos_agent_modu.WalletCli.Promise.{Fulfils, plan, promise, main-Fulfils}
use lp_0008_logos_agent_modu.WalletCli.ExitCodes.{ReadsErrors, main_error-exit}
use lp_0008_logos_agent_modu.Keystore.Tests.{crypto}
use lp_0008_logos_agent_modu.Provider.Tests.{toy_json, codec, identity, toy_wallet, sha, b58}
use lp_0008_logos_agent_modu.Ffi.Tests.{display, state}
use lp_0008_logos_agent_modu.WalletCli.{Cmd, npk, main}
use lp_0008_logos_agent_modu.WalletCli.Clean.{any_nul, args_of, Clean}
use lp_0008_logos_agent_modu.WalletCli.Leaks.{main-Clean}

abbrev npk_cmd : Cmd
npk_cmd = npk (lit "home") (lit "pw")

main-Clean_example :
    let r = main toy_json display codec identity toy_wallet crypto sha b58 3 5 npk_cmd state in
    Clean state.heap (args_of npk_cmd) r × (any_nul (args_of npk_cmd) ≡ true → r ≡ none)
main-Clean_example = main-Clean toy_json display codec toy_wallet crypto sha b58 3 5 npk_cmd state

main-Fulfils_example :
    Fulfils state.heap
      (promise toy_json display
        (plan toy_json display codec toy_wallet crypto sha b58 3 5 npk_cmd)
        state.world)
      (main toy_json display codec identity toy_wallet crypto sha b58 3 5 npk_cmd state)
main-Fulfils_example =
    main-Fulfils toy_json display codec toy_wallet crypto sha b58 3 5 npk_cmd state
      (refl, (refl, tt))

-- A reader of JSON that knows objects with the one field `error` only.
abbrev errors_json : Json
errors_json = record {
  Value = Text;
  get = λ key v. if eq_text key (lit "error") then some v else none;
  as_array = λ v. none;
  as_str = λ v. some v;
  as_u64 = λ v. none;
  from_slice = λ bytes.
      if starts_with (lit "{\"error\": ") bytes && is_some (read_literal (drop 10 bytes))
      then ok bytes
      else err [];
  history_to_string = λ entries. ok [];
}

errors_json-ReadsErrors : ReadsErrors errors_json
unfolding as_bytes
errors_json-ReadsErrors = record {
  valid = λ s msg scalars h. (
    as_bytes (lit "{\"error\": " ++ s),
    as_bytes (lit "{\"error\": " ++ s),
    rw (read_literal-as_bytes, h) refl,
    refl,
  );
  invalid = λ s h. ([], rw (read_literal-as_bytes (b'"' ∷ s)) (rw h refl));
}

-- The storage is not of that form.
npk_fails :
    (reading {i = identity} (get_npk errors_json (lit "home") (lit "pw")) state.world).0
    ≡ err (json [])
unfolding get_npk read_storage read
npk_fails = refl

failed_scalars : All IsScalar (lit "failed")
failed_scalars = (
  inl (omega arith),
  (
    inl (omega arith),
    (inl (omega arith), (inl (omega arith), (inl (omega arith), (inl (omega arith), tt)))),
  ),
)

main_error-exit_example :
    (after : State identity) × (main errors_json display codec identity toy_wallet crypto sha b58 3
        5 npk_cmd state
      ≡ some ((if is_printable (lit "failed") then 1 else 0), envelope (lit "failed") ∷ [], after))
main_error-exit_example =
    main_error-exit errors_json errors_json-ReadsErrors display codec toy_wallet crypto sha b58 3 5
      npk_cmd state refl npk_fails refl failed_scalars (refl, (refl, tt))
