-- ===== src/Provider/Programs.antt =====
-- `program_call` and `program_deploy` of provider.rs.
pub mod Words
pub mod Meant
pub mod Safety
pub mod Deploys
use lp_0008_logos_agent_modu.Base.{
  map_err, ℕ, ◌+◌, ◌-◌, ◌*◌, ◌/◌, ◌%◌, ◌^◌, not, none, some, List, [], ◌∷◌, ◌++◌, ◌==◌,
  if◌then◌else◌, length, Result, ok, err, Text, lit,
}
use lp_0008_logos_agent_modu.Keys.{Bytes, Sha256, Base58, hex_fold}
use lp_0008_logos_agent_modu.Keystore.Crates.{Crypto}
use lp_0008_logos_agent_modu.Std.Disk.{read}
use lp_0008_logos_agent_modu.Std.Strings.{as_bytes}
use lp_0008_logos_agent_modu.Provider.Crates.{
  Json, HexCodec, Identity, Request, public_transaction, program_deployment, Wallet,
}
use lp_0008_logos_agent_modu.Provider.{ProviderError, paths_new, wallet, io}
use lp_0008_logos_agent_modu.Provider.Storage.{and_then, array_at}
use lp_0008_logos_agent_modu.Provider.Account.{account_id_from_keystore}
use lp_0008_logos_agent_modu.Provider.World.{Act, ◌>>=◌, lift, reading, open_wallet}

abbrev pub u32_mod : ℕ
u32_mod = 2 ^ 32

-- `u32::from_le_bytes`
abbrev pub from_le_bytes : ℕ → ℕ → ℕ → ℕ → ℕ
from_le_bytes a b c d = a + 256 * b + 65536 * c + 16777216 * d

-- The chunks of four bytes, the last one filled with zeros.
unfoldable pub words_of_bytes : Bytes → List ℕ
words_of_bytes [] = []
words_of_bytes (a ∷ []) = from_le_bytes a 0 0 0 ∷ []
words_of_bytes (a ∷ b ∷ []) = from_le_bytes a b 0 0 ∷ []
words_of_bytes (a ∷ b ∷ c ∷ []) = from_le_bytes a b c 0 ∷ []
words_of_bytes (a ∷ b ∷ c ∷ d ∷ bytes) = from_le_bytes a b c d ∷ words_of_bytes bytes

-- `flat_map(|n| n.to_le_bytes())`
unfoldable pub bytes_of_words : List ℕ → Bytes
bytes_of_words [] = []
bytes_of_words (n ∷ ns) =
    n % 256 ∷ n / 256 % 256 ∷ n / 65536 % 256 ∷ n / 16777216 % 256 ∷ bytes_of_words ns

-- The program id in hexadecimal.
unfoldable pub id_hex : List ℕ → Text
id_hex program_id = hex_fold (bytes_of_words program_id) []

unfoldable pub parse_program_id : HexCodec → Text → Result (List ℕ) ProviderError
parse_program_id hex program_id = elim (hex.decode program_id) [
  | err e ↦ err (wallet ((lit "program_id hex decode: " ++ e) ∷ []))
  | ok bytes ↦
      if not (length bytes == 32)
      then err (wallet (lit "program_id must be 64-char hex (32 bytes = 8 x u32)" ∷ []))
      else ok (words_of_bytes bytes)
]

module _ (j : Json) (hex : HexCodec) (i : Identity) where
  unfoldable pub parse_account : j.Value → Result i.AccountId ProviderError
  parse_account v = elim (j.as_str v) [
    | none ↦ err (wallet (lit "account must be a string" ∷ []))
    | some s ↦ map_err (λ e. wallet (lit "invalid account_id in params_json" ∷ e ∷ [])) (i.parse s)
  ]

  unfoldable pub parse_word : j.Value → Result ℕ ProviderError
  parse_word v = elim (j.as_u64 v) [
    | none ↦ err (wallet (lit "instruction_words must be u32" ∷ []))
    | some n ↦ ok (n % u32_mod)
  ]

  -- `collect::<Result<Vec<_>>>()`: the first error ends it.
  unfoldable pub collect :
      {A : Type 0}
      → (j.Value → Result A ProviderError)
      → List j.Value
      → Result (List A) ProviderError
  collect f [] = ok []
  collect f (v ∷ vs) = elim (f v) [
    | err e ↦ err e
    | ok a ↦ elim (collect f vs) [ err e ↦ err e | ok as' ↦ ok (a ∷ as') ]
  ]

  unfoldable pub parse_accounts : i.AccountId → j.Value → Result (List i.AccountId) ProviderError
  parse_accounts caller_id params = elim (array_at j (lit "accounts") (some params)) [
    | none ↦ ok (caller_id ∷ [])
    | some vs ↦ collect parse_account vs
  ]

  unfoldable pub parse_instruction : j.Value → Result (List ℕ) ProviderError
  parse_instruction params = elim (array_at j (lit "instruction_words") (some params)) [
    | some vs ↦ collect parse_word vs
    | none ↦ elim (and_then (j.get (lit "instruction_hex") params) (λ v. j.as_str v)) [
      | none ↦ ok []
      | some hex_str ↦
          map_err (λ e. wallet ((lit "instruction_hex decode: " ++ e) ∷ []))
            (elim (hex.decode hex_str) [ err e ↦ err e | ok bytes ↦ ok (words_of_bytes bytes) ])
    ]
  ]

  module _ (lez : Wallet i) where
    -- `filter_map`: an account without a key signs nothing.
    unfoldable pub signing_keys : lez.Core → List i.AccountId → List i.SigningKey
    signing_keys core [] = []
    signing_keys core (id ∷ ids) =
        let rest = signing_keys core ids in
        elim (lez.get_account_public_signing_key core id) [ none ↦ rest | some key ↦ key ∷ rest ]

    -- `send_transaction(…).context(…)`
    unfoldable pub send_transaction : lez.Core → Text → Request i → Act i Bytes
    send_transaction core context t w = (
      map_err (λ e. wallet (context ∷ e ∷ [])) (lez.send core w.sent t),
      record w { sent = w.sent ++ (t ∷ []) },
    )

    unfoldable pub fetch_nonces : lez.Core → List i.AccountId → Act i (List i.Nonce)
    fetch_nonces core ids w =
        (map_err (λ e. wallet (e ∷ [])) (lez.get_accounts_nonces core w.sent ids), w)

    unfoldable pub program_call :
        Crypto → Sha256 → Base58 → Text → Text → Text → Text → Text → Act i Text
    program_call c sha b58 home passphrase program_id instruction params_json = do
      caller_id ← reading (account_id_from_keystore c sha b58 i (paths_new home) passphrase)
      core ← open_wallet lez (paths_new home)
      params ← lift (
          map_err (λ e. wallet ((lit "params_json parse error: " ++ e) ∷ []))
            (j.from_slice (as_bytes params_json)))
      account_ids ← lift (parse_accounts caller_id params)
      instruction_data ← lift (parse_instruction params)
      pid ← lift (parse_program_id hex program_id)
      nonces ← fetch_nonces core account_ids
      hash ← send_transaction core (lit "program_call: send_transaction failed") (
          public_transaction pid account_ids nonces instruction_data
            (signing_keys core account_ids))
      lift (ok (hex.encode hash))

    unfoldable pub program_deploy : Text → Text → Text → Act i Text
    program_deploy home passphrase binary_path = do
      core ← open_wallet lez (paths_new home)
      bytecode ← reading (λ disk. map_err io (read binary_path disk))
      program_id ← lift (
          map_err (λ e. wallet ((lit "invalid program binary: " ++ e) ∷ []))
            (lez.program_id bytecode))
      _ ←
          send_transaction core (lit "program_deploy: send_transaction failed")
            (program_deployment bytecode)
      lift (ok (id_hex program_id))
