-- ===== src/Provider/Tests.antt =====
-- The provider over small stand-ins for its crates, and the theorems at concrete data.
mod Storage
mod Operations
use lp_0008_logos_agent_modu.Base.{
  take, ℕ, zero, suc, Option, none, some, List, [], ◌∷◌, ◌++◌, map, if◌then◌else◌, length,
  replicate, ok, Text, lit, eq_text,
}
use lp_0008_logos_agent_modu.Keys.{Bytes, Sha256, Base58}
use lp_0008_logos_agent_modu.Std.Decimal.{to_string}
use lp_0008_logos_agent_modu.Std.Disk.{Disk}
use lp_0008_logos_agent_modu.Provider.Crates.{Json, HexCodec, Identity, Wallet}
use lp_0008_logos_agent_modu.Provider.World.{World}

-- Arrays and objects are chains of their elements and fields.
pub data Node : Type 0 where
  nil : Node
  text : Text → Node
  number : ℕ → Node
  element : Node → Node → Node
  field : Text → Node → Node → Node

unfoldable pub get : Text → Node → Option Node
get key (field k v rest) = let later = get key rest in if eq_text k key then some v else later
get key _ = none

unfoldable pub elements : Node → List Node
elements (element v rest) = v ∷ elements rest
elements _ = []

unfoldable pub as_array : Node → Option (List Node)
as_array (element v rest) = some (v ∷ elements rest)
as_array nil = some []
as_array _ = none

unfoldable pub as_str : Node → Option Text
as_str (text s) = some s
as_str _ = none

unfoldable pub as_u64 : Node → Option ℕ
as_u64 (number n) = some n
as_u64 _ = none

abbrev pub just : Text → Node → Node
just key v = field key v nil

unfoldable pub ones : ℕ → Node
ones zero = nil
ones (suc n) = element (number 257) (ones n)

abbrev pub key_data : Node
key_data = field (lit "nullifier_public_key") (ones 32) (
    just (lit "private_key_holder")
      (just (lit "viewing_secret_key") (field (lit "d") (ones 32) (just (lit "z") (ones 32)))))

abbrev pub own_entry : Node
own_entry = just (lit "Private") (
    field (lit "account_id") (text (lit "me"))
      (just (lit "data") (just (lit "value") (element key_data nil))))

abbrev pub bank_entry : Node
bank_entry =
    just (lit "Preconfigured") (just (lit "Public") (just (lit "account_id") (text (lit "bank"))))

abbrev pub entries : Node
entries =
    element (just (lit "Public") (just (lit "account_id") (text (lit "other"))))
      (element own_entry (element bank_entry nil))

abbrev pub storage : Node
storage = field (lit "key_chain") (just (lit "accounts") entries) (just (lit "accounts") entries)

abbrev pub toy_json : Json
toy_json = record {
  Value = Node;
  get = get;
  as_array = as_array;
  as_str = as_str;
  as_u64 = as_u64;
  from_slice = λ bytes. ok storage;
  history_to_string = λ entries. ok (to_string (length entries));
}

abbrev pub codec : HexCodec
codec = record { encode = λ bytes. bytes; decode = λ s. ok s }

abbrev pub identity : Identity
identity = record {
  AccountId = Text;
  parse = λ s. ok s;
  to_string = λ id. id;
  same = eq_text;
  ViewingPublicKey = Bytes;
  from_seed = λ d z. d ++ z;
  from_bytes = λ bytes. ok bytes;
  Nonce = ℕ;
  SigningKey = Text;
}

abbrev pub toy_wallet : Wallet identity
toy_wallet = record {
  Core = Unit {0};
  new_update_chain = λ config storage disk. (ok tt, disk);
  send = λ core sent t. ok (1 ∷ 2 ∷ []);
  Entropy = ℕ;
  Mnemonic = ℕ;
  new_init_storage = λ entropy config storage passphrase disk. (ok (tt, entropy), disk);
  to_seed = λ m salt. replicate 64 m;
  phrase = λ m. lit "words";
  store_persistent_data = λ core disk. (ok tt, disk);
  get_accounts_nonces = λ core sent ids. ok (map (λ id. 7) ids);
  get_account_public_signing_key = λ core id. some id;
  program_id = λ bytes. ok (replicate 8 0x01020304);
  get_account_private = λ core id. some (40, 2);
  get_account_balance = λ core sent id. ok 0;
  get_account_public = λ core sent id. ok id;
  get_last_block_id = λ core sent. ok 99;
  sync_to_block = λ core sent tip. ok core;
}

abbrev pub disk : Disk
disk = record {
  files = (lit "home/wallet_storage.json", lit "{}") ∷ [];
  read_fault = λ path. none;
  write_fault = λ path. none;
  torn = λ path bytes. none;
  dir_fault = λ path. none;
}

abbrev pub start : World identity
start = record { disk = disk; sent = []; printed = [] }

abbrev pub sha : Sha256
sha = record { digest = λ bytes. take 32 (bytes ++ replicate 32 0) }

abbrev pub b58 : Base58
b58 = record { encode = λ bytes. bytes; decode = λ s. some s }
