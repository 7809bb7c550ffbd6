-- ===== src/Ffi.antt =====
-- lez-wallet-module/lez-wallet-core/src/ffi.rs: the functions that C code calls.
pub mod Envelope
pub mod Heap
pub mod Exports
pub mod Session
pub mod Tests
use lp_0008_logos_agent_modu.Base.{
  ℕ, suc, ◌+◌, ◌<◌, Bool, true, false, ◌||◌, Option, none, some, List, [], ◌∷◌, ◌++◌, ◌==◌,
  if◌then◌else◌, Result, ok, err, Text, lit,
}
use lp_0008_logos_agent_modu.Keys.{Sha256, Base58}
use lp_0008_logos_agent_modu.Keystore.Crates.{Crypto}
use lp_0008_logos_agent_modu.Std.Replace.{replace}
use lp_0008_logos_agent_modu.Provider.Crates.{Json, HexCodec, Identity, Wallet}
use lp_0008_logos_agent_modu.Provider.{ProviderError}
use lp_0008_logos_agent_modu.Provider.Storage.{get_npk, get_vpk}
use lp_0008_logos_agent_modu.Provider.World.{World, Act, reading}
use lp_0008_logos_agent_modu.Provider.Transfers.{send_to_foreign, send_shielded}
use lp_0008_logos_agent_modu.Provider.Account.{ensure_account}
use lp_0008_logos_agent_modu.Provider.Programs.{program_call, program_deploy}
use lp_0008_logos_agent_modu.Provider.Queries.{
  ℤ, get_balance, get_history, sync_private, program_query,
}

-- A pointer that C hands in: null, or a terminated string, which may be no UTF-8.
pub data CArg : Type 0 where
  null no_utf8 : CArg
  valid : Text → CArg

abbrev pub cstr_to_str : CArg → Option Text
cstr_to_str (valid s) = some s
cstr_to_str null = none
cstr_to_str no_utf8 = none

-- The strings that were handed out and not freed yet, by address; addresses are not used again.
-- `broken` is set once a pointer is freed that is not live.
pub record CHeap : Type 0 where
  pub live : List (ℕ × Text)
  pub next : ℕ
  pub broken : Bool

pub record State (i : Identity) : Type 0 where
  pub world : World i
  pub heap : CHeap

abbrev pub has_nul : Text → Bool
has_nul [] = false
has_nul (c ∷ s) = (c == 0) || has_nul s

-- `CString::new(s).unwrap_or_else(…)`
unfoldable pub cstring : Text → Text
cstring s = if has_nul s then lit "<encoding error>" else s

unfoldable pub to_cstring : Text → CHeap → ℕ × CHeap
to_cstring s heap =
    (heap.next, record heap { live = (heap.next, cstring s) ∷ heap.live; next = suc heap.next })

-- `format!(r#"{{"error": "{escaped}"}}"#)`
unfoldable pub envelope : Text → Text
envelope msg =
    let escaped =
      replace (b'"' ∷ []) (b'\\' ∷ b'"' ∷ []) (replace (b'\\' ∷ []) (b'\\' ∷ b'\\' ∷ []) msg) in
    lit "{\"error\": \"" ++ (escaped ++ lit "\"}")

unfoldable pub error_result : Text → CHeap → ℕ × CHeap
error_result msg heap = to_cstring (envelope msg) heap

abbrev pub lookup_cell : ℕ → List (ℕ × Text) → Option Text
lookup_cell p [] = none
lookup_cell p ((q, s) ∷ cells) = let rest = lookup_cell p cells in if q == p then some s else rest

abbrev pub remove_cell : ℕ → List (ℕ × Text) → List (ℕ × Text)
remove_cell p [] = []
remove_cell p ((q, s) ∷ cells) =
    let rest = (q, s) ∷ remove_cell p cells in if q == p then cells else rest

-- `CString::from_raw` and drop; null is left alone.
unfoldable pub lez_wallet_free_string : Option ℕ → CHeap → CHeap
lez_wallet_free_string none heap = heap
lez_wallet_free_string (some p) heap = elim (lookup_cell p heap.live) [
  | none ↦ record heap { broken = true }
  | some s ↦ record heap { live = remove_cell p heap.live }
]

-- `e.to_string()` is what `thiserror` derives.
module _ (display : ProviderError → Text) {i : Identity} where
  -- The result of an operation as a string.
  unfoldable pub respond : Result Text ProviderError × World i → CHeap → ℕ × State i
  respond (ok s, w) heap =
      let (p, heap') = to_cstring s heap in (p, record { world = w; heap = heap' })
  respond (err e, w) heap =
      let (p, heap') = error_result (display e) heap in (p, record { world = w; heap = heap' })

  unfoldable pub refuse : State i → ℕ × State i
  refuse st =
      let (p, heap') = error_result (lit "null argument") st.heap in (p, record st { heap = heap' })

  -- An argument that is needed: without it the function returns.
  unfoldable pub with_arg : CArg → (Text → State i → ℕ × State i) → State i → ℕ × State i
  with_arg a k st = elim (cstr_to_str a) [ none ↦ refuse st | some s ↦ k s st ]

  unfoldable pub run_op : Act i Text → State i → ℕ × State i
  run_op op st = respond (op st.world) st.heap

-- `block_on(…)` is the run of the operation.
module _ (display : ProviderError → Text) (j : Json) (hex : HexCodec) (i : Identity)
    (lez : Wallet i) where
  module _ (c : Crypto) (sha : Sha256) (b58 : Base58) where
    unfoldable pub lez_wallet_ensure_account :
        lez.Entropy → c.Rng → CArg → CArg → State i → ℕ × State i
    lez_wallet_ensure_account entropy rng home_dir passphrase = with_arg display home_dir (λ home.
        with_arg display passphrase
          (λ pass. run_op display (ensure_account c sha b58 i lez home pass entropy rng)))

    unfoldable pub lez_wallet_history : CArg → CArg → ℤ → State i → ℕ × State i
    lez_wallet_history home_dir passphrase limit = with_arg display home_dir (λ home.
        with_arg display passphrase
          (λ pass. run_op display (get_history j i lez c sha b58 home pass limit)))

    unfoldable pub lez_wallet_program_call :
        CArg → CArg → CArg → CArg → CArg → State i → ℕ × State i
    lez_wallet_program_call home_dir passphrase program_id instruction params_json =
        with_arg display home_dir (λ home. with_arg display passphrase (λ pass.
          with_arg display program_id (λ pid. with_arg display instruction (λ instr.
            with_arg display params_json (λ params.
              run_op display (program_call j hex i lez c sha b58 home pass pid instr params))))))

  unfoldable pub lez_wallet_npk : CArg → CArg → State i → ℕ × State i
  lez_wallet_npk home_dir passphrase =
      with_arg display home_dir (λ home.
        with_arg display passphrase (λ pass. run_op display (reading (get_npk j home pass))))

  unfoldable pub lez_wallet_vpk : CArg → CArg → State i → ℕ × State i
  lez_wallet_vpk home_dir passphrase =
      with_arg display home_dir (λ home.
        with_arg display passphrase (λ pass. run_op display (reading (get_vpk j home pass))))

  unfoldable pub lez_wallet_balance : CArg → CArg → State i → ℕ × State i
  lez_wallet_balance home_dir passphrase =
      with_arg display home_dir (λ home.
        with_arg display passphrase (λ pass. run_op display (get_balance j i lez home pass)))

  -- `unwrap_or(false)`
  unfoldable pub lez_wallet_sync_private : CArg → State i → Bool × State i
  lez_wallet_sync_private home_dir st = elim (cstr_to_str home_dir) [
    | none ↦ (false, st)
    | some home ↦
        let synced = sync_private j i lez home st.world in
        (elim synced.0 [ err e ↦ false | ok b ↦ b ], record st { world = synced.1 })
  ]

  unfoldable pub lez_wallet_send : CArg → CArg → CArg → CArg → State i → ℕ × State i
  lez_wallet_send home_dir passphrase recipient amount_decimal = with_arg display home_dir (λ home.
      with_arg display passphrase (λ pass. with_arg display recipient (λ rec.
        with_arg display amount_decimal
          (λ amt. run_op display (send_shielded j hex i lez home pass rec amt)))))

  unfoldable pub lez_wallet_send_to : CArg → CArg → CArg → CArg → State i → ℕ × State i
  lez_wallet_send_to home_dir npk_hex vpk_hex amount_decimal = with_arg display home_dir (λ home.
      with_arg display npk_hex (λ npk. with_arg display vpk_hex (λ vpk.
        with_arg display amount_decimal
          (λ amt. run_op display (send_to_foreign j hex i lez home npk vpk amt)))))

  unfoldable pub lez_wallet_program_query : CArg → CArg → CArg → State i → ℕ × State i
  lez_wallet_program_query home_dir program_id params_json = with_arg display home_dir (λ home.
      with_arg display program_id (λ pid.
        with_arg display params_json
          (λ params. run_op display (program_query j i lez home pid params))))

  unfoldable pub lez_wallet_program_deploy : CArg → CArg → CArg → State i → ℕ × State i
  lez_wallet_program_deploy home_dir passphrase binary_path = with_arg display home_dir (λ home.
      with_arg display passphrase (λ pass.
        with_arg display binary_path
          (λ bin. run_op display (program_deploy j hex i lez home pass bin))))
