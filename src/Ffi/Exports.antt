-- ===== src/Ffi/Exports.antt =====
-- The C functions that return a string, as one interface: which operation a call stands for, and
-- what it hands out.
use lp_0008_logos_agent_modu.Base.{ℕ, ◌≡◌, refl, Option, none, some, Result, ok, err, Text, lit}
use lp_0008_logos_agent_modu.Keys.{Sha256, Base58}
use lp_0008_logos_agent_modu.Keystore.Crates.{Crypto}
use lp_0008_logos_agent_modu.Provider.Crates.{Json, HexCodec, Identity, Wallet}
use lp_0008_logos_agent_modu.Provider.{ProviderError}
use lp_0008_logos_agent_modu.Provider.Storage.{get_npk, get_vpk}
use lp_0008_logos_agent_modu.Provider.World.{World, Act, reading}
use lp_0008_logos_agent_modu.Provider.Transfers.{send_to_foreign, send_shielded}
use lp_0008_logos_agent_modu.Provider.Account.{ensure_account}
use lp_0008_logos_agent_modu.Provider.Programs.{program_call, program_deploy}
use lp_0008_logos_agent_modu.Provider.Queries.{ℤ, get_balance, get_history, program_query}
use lp_0008_logos_agent_modu.Ffi.{
  CArg, null, no_utf8, valid, State, to_cstring, cstring, envelope, error_result, respond, refuse,
  with_arg, run_op, lez_wallet_ensure_account, lez_wallet_history, lez_wallet_program_call,
  lez_wallet_npk, lez_wallet_vpk, lez_wallet_balance, lez_wallet_send, lez_wallet_send_to,
  lez_wallet_program_query, lez_wallet_program_deploy,
}
use lp_0008_logos_agent_modu.Ffi.Heap.{one_more}

-- A call with its arguments; `E` and `R` are what a new wallet and a new key file draw at random.
pub data CCall (E R : Type 0) : Type 0 where
  ensure : E → R → CArg → CArg → CCall E R
  history : CArg → CArg → ℤ → CCall E R
  call : CArg → CArg → CArg → CArg → CArg → CCall E R
  npk vpk balance : CArg → CArg → CCall E R
  send send_to : CArg → CArg → CArg → CArg → CCall E R
  query deploy : CArg → CArg → CArg → CCall E R

-- An argument that is null or no UTF-8 is missing.
infixr 5 ◌given◌
abbrev ◌given◌ : {A : Type 0} → CArg → (Text → Option A) → Option A
null given k = none
no_utf8 given k = none
valid s given k = k s

-- The text that stands for the result of an operation.
abbrev pub result_text : (ProviderError → Text) → Result Text ProviderError → Text
result_text display (ok s) = cstring s
result_text display (err e) = cstring (envelope (display e))

module _ (display : ProviderError → Text) {i : Identity} where
  -- One new string: the result of the operation, or of no operation where an argument is missing.
  abbrev pub settled : Option (Act i Text) → State i → ℕ × State i
  settled none st = (
    st.heap.next,
    record st { heap = one_more st.heap (cstring (envelope (lit "null argument"))) },
  )
  settled (some op) st = (
    st.heap.next,
    record {
      world = (op st.world).1;
      heap = one_more st.heap (result_text display (op st.world).0);
    },
  )

  with_arg-settled :
      (a : CArg) (k : Text → State i → ℕ × State i) (f : Text → Option (Act i Text)) (st : State i)
      → ((s : Text) → k s st ≡ settled (f s) st)
      → with_arg display a k st ≡ settled (a given f) st
  unfolding with_arg refuse error_result to_cstring
  with_arg-settled null k f st h = refl
  with_arg-settled no_utf8 k f st h = refl
  with_arg-settled (valid s) k f st h = h s

  run_op-settled : (op : Act i Text) (st : State i) → run_op display op st ≡ settled (some op) st
  unfolding run_op respond error_result to_cstring
  run_op-settled op st = of_result (op st.world)
    where
      of_result :
          (r : Result Text ProviderError × World i)
          → respond display r st.heap ≡ (
            st.heap.next,
            record { world = r.1; heap = one_more st.heap (result_text display r.0) },
          )
      of_result (ok s, w) = refl
      of_result (err e, w) = refl

module _ (display : ProviderError → Text) (j : Json) (hex : HexCodec) {i : Identity}
    (lez : Wallet i) (c : Crypto) (sha : Sha256) (b58 : Base58) where
  -- The C function that is called.
  unfoldable pub serve : CCall lez.Entropy c.Rng → State i → ℕ × State i
  serve (ensure entropy rng home pass) =
      lez_wallet_ensure_account display j hex i lez c sha b58 entropy rng home pass
  serve (history home pass limit) = lez_wallet_history display j hex i lez c sha b58 home pass limit
  serve (call home pass id instruction params) =
      lez_wallet_program_call display j hex i lez c sha b58 home pass id instruction params
  serve (npk home pass) = lez_wallet_npk display j hex i lez home pass
  serve (vpk home pass) = lez_wallet_vpk display j hex i lez home pass
  serve (balance home pass) = lez_wallet_balance display j hex i lez home pass
  serve (send home pass recipient amount) =
      lez_wallet_send display j hex i lez home pass recipient amount
  serve (send_to home npk_hex vpk_hex amount) =
      lez_wallet_send_to display j hex i lez home npk_hex vpk_hex amount
  serve (query home id params) = lez_wallet_program_query display j hex i lez home id params
  serve (deploy home pass binary) = lez_wallet_program_deploy display j hex i lez home pass binary

  -- The operation that a call stands for, if all its arguments are given.
  abbrev pub demand : CCall lez.Entropy c.Rng → Option (Act i Text)
  demand (ensure entropy rng home pass) =
      home given λ h. pass given λ p. some (ensure_account c sha b58 i lez h p entropy rng)
  demand (history home pass limit) =
      home given λ h. pass given λ p. some (get_history j i lez c sha b58 h p limit)
  demand (call home pass id instruction params) = home given λ h. pass given λ p. id given λ d.
      instruction given λ n. params given λ a. some (program_call j hex i lez c sha b58 h p d n a)
  demand (npk home pass) = home given λ h. pass given λ p. some (reading (get_npk j h p))
  demand (vpk home pass) = home given λ h. pass given λ p. some (reading (get_vpk j h p))
  demand (balance home pass) = home given λ h. pass given λ p. some (get_balance j i lez h p)
  demand (send home pass recipient amount) = home given λ h. pass given λ p.
      recipient given λ r. amount given λ a. some (send_shielded j hex i lez h p r a)
  demand (send_to home npk_hex vpk_hex amount) = home given λ h. npk_hex given λ n.
      vpk_hex given λ v. amount given λ a. some (send_to_foreign j hex i lez h n v a)
  demand (query home id params) =
      home given λ h. id given λ d. params given λ a. some (program_query j i lez h d a)
  demand (deploy home pass binary) =
      home given λ h. pass given λ p. binary given λ b. some (program_deploy j hex i lez h p b)

  arg :
      (a : CArg) (k : Text → State i → ℕ × State i) (f : Text → Option (Act i Text)) (st : State i)
      → ((s : Text) → k s st ≡ settled display (f s) st)
      → with_arg display a k st ≡ settled display (a given f) st
  arg = with_arg-settled display

  run : (op : Act i Text) (st : State i) → run_op display op st ≡ settled display (some op) st
  run = run_op-settled display

  -- Every C function that returns a string hands out one new string and leaves the others. If an
  -- argument is null or no UTF-8, the string is the envelope of `null argument` and nothing was
  -- run. Otherwise it is the result of the operation that the function stands for, or the envelope
  -- of its error, and the operation was run once.
  pub serve-settled :
      (q : CCall lez.Entropy c.Rng) (st : State i) → serve q st ≡ settled display (demand q) st
  unfolding serve lez_wallet_ensure_account lez_wallet_history lez_wallet_program_call
      lez_wallet_npk lez_wallet_vpk lez_wallet_balance lez_wallet_send lez_wallet_send_to
      lez_wallet_program_query lez_wallet_program_deploy
  serve-settled (ensure entropy rng home pass) st =
      arg home _ _ st (λ h. arg pass _ _ st (λ p. run _ st))
  serve-settled (history home pass limit) st =
      arg home _ _ st (λ h. arg pass _ _ st (λ p. run _ st))
  serve-settled (call home pass id instruction params) st = arg home _ _ st (λ h.
      arg pass _ _ st
        (λ p. arg id _ _ st (λ d. arg instruction _ _ st (λ n. arg params _ _ st (λ a. run _ st)))))
  serve-settled (npk home pass) st = arg home _ _ st (λ h. arg pass _ _ st (λ p. run _ st))
  serve-settled (vpk home pass) st = arg home _ _ st (λ h. arg pass _ _ st (λ p. run _ st))
  serve-settled (balance home pass) st = arg home _ _ st (λ h. arg pass _ _ st (λ p. run _ st))
  serve-settled (send home pass recipient amount) st =
      arg home _ _ st
        (λ h. arg pass _ _ st (λ p. arg recipient _ _ st (λ r. arg amount _ _ st (λ a. run _ st))))
  serve-settled (send_to home npk_hex vpk_hex amount) st =
      arg home _ _ st
        (λ h. arg npk_hex _ _ st (λ n. arg vpk_hex _ _ st (λ v. arg amount _ _ st (λ a. run _ st))))
  serve-settled (query home id params) st =
      arg home _ _ st (λ h. arg id _ _ st (λ d. arg params _ _ st (λ a. run _ st)))
  serve-settled (deploy home pass binary) st =
      arg home _ _ st (λ h. arg pass _ _ st (λ p. arg binary _ _ st (λ b. run _ st)))
