-- ===== src/Provider/Tests/Operations.antt =====
-- The theorems on the operations at concrete data.
use mathlib.Core.Path.{subst}
use lp_0008_logos_agent_modu.Base.{
  ◌<◌, All, length, length-take, ◌≡◌, refl, ap, true, false, Option, none, some, [], ◌++◌, arith,
  replicate, length-append, Result, ok, err, Text, lit,
}
use lp_0008_logos_agent_modu.Keys.{Bytes, hex_fold, decode_chunks, KeyDerivationError}
use lp_0008_logos_agent_modu.Keys.Hex.{decode_chunks-hex_fold}
use lp_0008_logos_agent_modu.Keystore.Tests.{crypto, crypto-IsSound, length-replicate}
use lp_0008_logos_agent_modu.Keystore.{encrypt, save, derive_key}
use lp_0008_logos_agent_modu.Std.Strings.{as_bytes, utf8_char}
use lp_0008_logos_agent_modu.Std.Disk.{read, write, exists_file}
use lp_0008_logos_agent_modu.Provider.Crates.{Json, HexCodec}
use lp_0008_logos_agent_modu.Provider.{ProviderError, paths_new}
use lp_0008_logos_agent_modu.Provider.Storage.{
  key_chain_accounts, read_storage, private_id, first_match, account_id_from_wallet,
}
use lp_0008_logos_agent_modu.Provider.World.{World, open_wallet}
use lp_0008_logos_agent_modu.Provider.Programs.{u32_mod, program_call, program_deploy}
use lp_0008_logos_agent_modu.Provider.Programs.Deploys.{
  HasWordIds, DeploysOnce, program_deploy-DeploysOnce,
}
use lp_0008_logos_agent_modu.Provider.Programs.Words.{DecodesHex}
use lp_0008_logos_agent_modu.Provider.Programs.Safety.{IsCall, program_call-PaysOnce}
use lp_0008_logos_agent_modu.Provider.Transfers.{send_to_foreign, send_shielded}
use lp_0008_logos_agent_modu.Provider.Transfers.Layout.{send_to_foreign_nested}
use lp_0008_logos_agent_modu.Provider.Transfers.Safety.{
  PaysOnce, IsForeign, IsOwn, send_to_foreign-PaysOnce, send_shielded-PaysOnce,
}
use lp_0008_logos_agent_modu.Provider.Account.{
  id_of_key, ensure_account, first_init, keep_key, finish_init, show_mnemonic,
}
use lp_0008_logos_agent_modu.Provider.Account.Shows.{ShowsKept, ensure_account-ShowsKept}
use lp_0008_logos_agent_modu.Provider.Account.Reopen.{IsFaithful, LeavesAlone, ensure_account_again}
use lp_0008_logos_agent_modu.Provider.Tests.{
  Node, just, entries, get, elements, as_array, as_str, ones, toy_json, codec, identity, toy_wallet,
  disk, start, sha, b58,
}

send_to_foreign-PaysOnce_example :
    PaysOnce
      (IsForeign toy_json codec identity toy_wallet
        (lit "home")
        (replicate 32 5)
        (replicate 1184 6)
        (lit "12")
        start)
      []
      (send_to_foreign toy_json codec identity toy_wallet
        (lit "home")
        (replicate 32 5)
        (replicate 1184 6)
        (lit "12")
        start)
send_to_foreign-PaysOnce_example =
    send_to_foreign-PaysOnce toy_json codec identity toy_wallet (lit "home") (replicate 32 5)
      (replicate 1184 6) (lit "12") start

send_shielded-PaysOnce_example :
    PaysOnce
      (IsOwn toy_json codec identity toy_wallet (lit "home") (lit "me") (lit "12") start)
      []
      (send_shielded toy_json codec identity toy_wallet
        (lit "home")
        (lit "pw")
        (lit "me")
        (lit "12")
        start)
send_shielded-PaysOnce_example =
    send_shielded-PaysOnce toy_json codec identity toy_wallet (lit "home") (lit "pw") (lit "me")
      (lit "12") start

identity-IsFaithful : IsFaithful sha b58 identity
identity-IsFaithful = record {
  length-digest = λ bytes.
      length-take 32 (bytes ++ replicate 32 0)
        (omega (arith, length-append bytes (replicate 32 0)));
  parse-encode = λ bytes h. (bytes, refl, refl);
}

toy_wallet-LeavesAlone : LeavesAlone identity toy_wallet (lit "home")
toy_wallet-LeavesAlone = record {
  length-to_seed = λ m salt. length-replicate 64 m;
  init_faults = λ entropy passphrase disk. (refl, refl);
  store_keystore = λ core disk. (refl, refl);
}

abbrev first_call : Result Text ProviderError × World identity
first_call = ensure_account crypto sha b58 identity toy_wallet (lit "home") (lit "pw") 3 5 start

no_key_file : exists_file (paths_new (lit "home")).keystore_path disk ≡ false
unfolding exists_file
no_key_file = refl

first_call-ok : first_call.0 ≡ ok (id_of_key crypto sha b58 identity (replicate 32 3))
unfolding ensure_account first_init keep_key finish_init show_mnemonic encrypt save write
    exists_file derive_key as_bytes utf8_char
first_call-ok = refl

ensure_account_again_example :
    ensure_account crypto sha b58 identity toy_wallet (lit "home") (lit "pw") 4 6 first_call.1
    ≡ (ok (id_of_key crypto sha b58 identity (replicate 32 3)), first_call.1)
ensure_account_again_example =
    ensure_account_again crypto sha b58 identity toy_wallet crypto-IsSound identity-IsFaithful
      (lit "home") (lit "pw") toy_wallet-LeavesAlone 3 4 5 6 start no_key_file refl first_call-ok

ensure_account-ShowsKept_example :
    ShowsKept crypto sha b58 identity toy_wallet
      (paths_new (lit "home"))
      (lit "pw")
      3
      5
      start
      first_call
    × (exists_file (paths_new (lit "home")).keystore_path disk ≡ true → first_call.1 ≡ start)
ensure_account-ShowsKept_example =
    ensure_account-ShowsKept crypto sha b58 identity toy_wallet (lit "home") (lit "pw") 3 5 start

abbrev or_error : Option (Result Bytes KeyDerivationError) → Result Bytes Text
or_error none = err (lit "odd number of digits")
or_error (some (err e)) = err (lit "invalid character")
or_error (some (ok bytes)) = ok bytes

abbrev nibble_codec : HexCodec
nibble_codec = record {
  encode = λ bytes. hex_fold bytes [];
  decode = λ s. or_error (decode_chunks s);
}

nibble_codec-DecodesHex : DecodesHex nibble_codec
nibble_codec-DecodesHex bytes h = ap or_error (decode_chunks-hex_fold bytes h)

toy_wallet-HasWordIds : HasWordIds toy_wallet
toy_wallet-HasWordIds bytecode pid h =
    let same : replicate 8 0x01020304 ≡ pid = cc in
    subst (λ ns. All (λ n. n < u32_mod) ns × (length ns ≡ 8)) same (omega arith, refl)

program_deploy-DeploysOnce_example :
    DeploysOnce toy_json nibble_codec identity toy_wallet
      (lit "home")
      (lit "home/wallet_storage.json")
      start
      (program_deploy toy_json nibble_codec identity toy_wallet
        (lit "home")
        (lit "pw")
        (lit "home/wallet_storage.json")
        start)
program_deploy-DeploysOnce_example =
    program_deploy-DeploysOnce toy_json nibble_codec identity toy_wallet (lit "home") (lit "pw")
      (lit "home/wallet_storage.json") start nibble_codec-DecodesHex toy_wallet-HasWordIds

program_call-PaysOnce_example :
    PaysOnce
      (IsCall toy_json codec identity toy_wallet crypto sha b58
        (lit "home")
        (lit "pw")
        (replicate 32 7)
        (lit "{}")
        start)
      []
      (program_call toy_json codec identity toy_wallet crypto sha b58
        (lit "home")
        (lit "pw")
        (replicate 32 7)
        (lit "run")
        (lit "{}")
        start)
program_call-PaysOnce_example =
    program_call-PaysOnce toy_json codec identity toy_wallet crypto sha b58 (lit "home") (lit "pw")
      (replicate 32 7) (lit "run") (lit "{}") start

own_id : account_id_from_wallet toy_json identity (paths_new (lit "home")) disk ≡ ok (lit "me")
unfolding account_id_from_wallet read_storage key_chain_accounts read first_match private_id get
    as_array as_str elements ones
own_id = refl

opens : (open_wallet toy_wallet (paths_new (lit "home")) start).0 ≡ ok tt
unfolding open_wallet
opens = refl

abbrev nested_storage : Node
nested_storage = just (lit "key_chain") (just (lit "accounts") entries)

abbrev nested_json : Json
nested_json = record toy_json { from_slice = λ bytes. ok nested_storage }

nested_read : read_storage nested_json (paths_new (lit "home")) disk ≡ ok nested_storage
unfolding read_storage read
nested_read = refl

no_accounts : nested_json.get (lit "accounts") nested_storage ≡ none
unfolding get
no_accounts = refl

send_to_foreign_nested_example :
    let r =
      send_to_foreign nested_json codec identity toy_wallet
        (lit "home")
        (replicate 32 5)
        (replicate 1184 6)
        (lit "12")
        start in
    ((e : ProviderError) × (r.0 ≡ err e)) × (r.1.sent ≡ [])
send_to_foreign_nested_example =
    send_to_foreign_nested nested_json codec identity toy_wallet (lit "home") (replicate 32 5)
      (replicate 1184 6) (lit "12") start nested_read no_accounts
