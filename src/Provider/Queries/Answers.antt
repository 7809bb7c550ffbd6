-- ===== src/Provider/Queries/Answers.antt =====
-- What the queries answer.
use lp_0008_logos_agent_modu.Base.{
  map_err, take, ℕ, zero, suc, ◌<◌, ◌≡◌, refl, sym, ap, ◌∙◌, inl, inr, some, List, [], ◌∷◌, ◌++◌,
  arith, Option-cases, Result, ok, err, Text, lit,
}
use lp_0008_logos_agent_modu.Keys.{Sha256, Base58}
use lp_0008_logos_agent_modu.Keystore.Crates.{Crypto}
use lp_0008_logos_agent_modu.Std.Decimal.{to_string, u128_mod, parse_u128, parse_u128-to_string}
use lp_0008_logos_agent_modu.Provider.Crates.{Json, Identity, Wallet}
use lp_0008_logos_agent_modu.Provider.{ProviderError, paths_new, json}
use lp_0008_logos_agent_modu.Provider.Storage.{account_id_from_wallet}
use lp_0008_logos_agent_modu.Provider.Account.{account_id_from_keystore}
use lp_0008_logos_agent_modu.Provider.World.{
  World, Act, continue, open_wallet, ◌>>=◌, lift, reading,
}
use lp_0008_logos_agent_modu.Provider.Queries.{
  ℤ, pos, negsuc, known_or_asked, get_balance, history_entries, truncate, get_history,
}

take-nil : {A : Type 0} (n : ℕ) → take {A = A} n [] ≡ []
take-nil zero = refl
take-nil (suc n) = refl

continue-eq :
    {i : Identity} {A B : Type 0} (r : Result A ProviderError × World i) (f : A → Act i B) {a : A}
    → r.0 ≡ ok a
    → continue r f ≡ f a r.1
continue-eq (ok a, w) f h = ap (λ b. f b w) (cc)
continue-eq (err e, w) f h = absurd (cc)

module _ (j : Json) (i : Identity) (lez : Wallet i) where
  truncate-history_entries :
      (limit : ℤ) (core : lez.Core) (id : i.AccountId)
      → truncate j i lez limit (history_entries j i lez core id) ≡ history_entries j i lez core id
  unfolding truncate history_entries
  truncate-history_entries (pos zero) core id =
      elim (Option-cases (lez.get_account_private core id)) [
        | inl unknown ↦ rw (history_entries, unknown) refl
        | inr ((balance, nonce), known) ↦ rw (history_entries, known) refl
      ]
  truncate-history_entries (pos (suc limit)) core id =
      elim (Option-cases (lez.get_account_private core id)) [
        | inl unknown ↦ rw (history_entries, unknown) refl
        | inr ((balance, nonce), known) ↦
            rw (history_entries, known)
              (ap (λ t. (i.to_string id, to_string balance, to_string nonce) ∷ t) (take-nil limit))
      ]
  truncate-history_entries (negsuc limit) core id =
      elim (Option-cases (lez.get_account_private core id)) [
        | inl unknown ↦ rw (history_entries, unknown) refl
        | inr ((balance, nonce), known) ↦ rw (history_entries, known) refl
      ]

  -- The history holds one account at most, so that the limit never changes the answer.
  pub get_history-limit :
      (c : Crypto) (sha : Sha256) (b58 : Base58) (home passphrase : Text) (limit limit' : ℤ)
      (w : World i)
      → get_history j i lez c sha b58 home passphrase limit w
        ≡ get_history j i lez c sha b58 home passphrase limit' w
  unfolding get_history
  get_history-limit c sha b58 home passphrase limit limit' w =
      ap
        (λ (f : lez.Core → i.AccountId → List (Text × Text × Text)).
          let asked : Act i Text = do
            account_id ← reading (account_id_from_keystore c sha b58 i (paths_new home) passphrase)
            core ← open_wallet lez (paths_new home)
            lift (map_err json (j.history_to_string (f core account_id)))
          in asked w)
        (λ k core id.
          (truncate-history_entries limit core id ∙ sym (truncate-history_entries limit' core id))
            k)

  known-balance :
      (core : lez.Core) (id : i.AccountId) (w : World i) {balance nonce : ℕ}
      → lez.get_account_private core id ≡ some (balance, nonce)
      → ((known_or_asked j i lez core id w).0 ≡ ok (to_string balance))
        × ((known_or_asked j i lez core id w).1.sent ≡ w.sent)
  unfolding known_or_asked
  known-balance core id w known = (ground arith, ground arith)

  -- For an account that the wallet knows, with a balance that is a `u128`, the answer of
  -- `get_balance` is the decimal form of this balance, and nothing is sent.
  pub get_balance-known :
      (home passphrase : Text) (w : World i) {id : i.AccountId} {core : lez.Core}
      {balance nonce : ℕ}
      → account_id_from_wallet j i (paths_new home) w.disk ≡ ok id
      → (open_wallet lez (paths_new home) w).0 ≡ ok core
      → lez.get_account_private core id ≡ some (balance, nonce)
      → balance < u128_mod
      → (s : Text) × ((get_balance j i lez home passphrase w).0 ≡ ok s)
        × (parse_u128 s ≡ some balance)
        × ((get_balance j i lez home passphrase w).1.sent ≡ w.sent)
  unfolding get_balance open_wallet
  get_balance-known home passphrase w {id} {core} {balance} found opened known small =
      let v = (open_wallet lez (paths_new home) w).1 in
      let u : World i = record v {
        printed = w.printed ++ ((lit "[provider] get_balance: account_id=" ++ i.to_string id) ∷ []);
      } in
      let step : get_balance j i lez home passphrase w ≡ known_or_asked j i lez core id u =
        continue-eq (account_id_from_wallet j i (paths_new home) w.disk, w) _ found
        ∙ continue-eq ((open_wallet lez (paths_new home) w).0, u) _ opened in
      let (answer, quiet) = known-balance core id u known in
      (
        to_string balance,
        ap (λ (r : Result Text ProviderError × World i). r.0) step ∙ answer,
        parse_u128-to_string balance small,
        ap (λ (r : Result Text ProviderError × World i). r.1.sent) step ∙ quiet,
      )
