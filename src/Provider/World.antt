-- ===== src/Provider/World.antt =====
-- What an operation of the provider acts on: the disk, the requests that
-- were handed to the sequencer, and the lines on the standard error.
use lp_0008_logos_agent_modu.Base.{
  ◌≡◌, refl, ℕ, List, [], ◌∷◌, ◌++◌, Result, ok, err, map_err, Text,
}
use lp_0008_logos_agent_modu.Std.Disk.{Disk}
use lp_0008_logos_agent_modu.Provider.Crates.{Identity, Request, Wallet}
use lp_0008_logos_agent_modu.Provider.{ProviderError, AgentPaths, wallet, execution}

pub record World (i : Identity) : Type 0 where
  pub disk : Disk
  pub sent : List (Request i)
  pub printed : List Text

abbrev pub Act : Identity → Type 0 → Type 0
Act i A = World i → Result A ProviderError × World i

module _ {i : Identity} where
  abbrev pub continue :
      {A B : Type 0}
      → Result A ProviderError × World i
      → (A → Act i B)
      → Result B ProviderError × World i
  continue (ok a, w) f = f a w
  continue (err e, w) f = (err e, w)

  -- What holds after a step and the rest.
  pub continue-cases :
      {A B : Type 0} (D : Result B ProviderError × World i → Type 0) (r : Result A ProviderError)
      (v : World i) (f : A → Act i B)
      → ((e : ProviderError) → D (err e, v))
      → ((a : A) → r ≡ ok a → D (f a v))
      → D (continue (r, v) f)
  continue-cases D (ok a) v f fails goes = goes a refl
  continue-cases D (err e) v f fails goes = fails e

  infixl 5 ◌>>=◌
  abbrev pub ◌>>=◌ : {A B : Type 0} → Act i A → (A → Act i B) → Act i B
  ◌>>=◌ m f w = continue (m w) f

  -- A step that touches nothing.
  abbrev pub lift : {A : Type 0} → Result A ProviderError → Act i A
  lift r w = (r, w)

  -- A step that only reads files.
  abbrev pub reading : {A : Type 0} → (Disk → Result A ProviderError) → Act i A
  reading f w = (f w.disk, w)

  abbrev pub eprintln : Text → Act i (Unit {0})
  eprintln line w = (ok tt, record w { printed = w.printed ++ (line ∷ []) })

  -- A step of the disk.
  abbrev pub storing : {A : Type 0} → (Disk → Result A ProviderError × Disk) → Act i A
  storing f w = ((f w.disk).0, record w { disk = (f w.disk).1 })

  module _ (lez : Wallet i) where
    unfoldable pub open_wallet : AgentPaths → Act i lez.Core
    open_wallet paths w =
        let (opened, disk) = lez.new_update_chain paths.config_path paths.storage_path w.disk in
        (map_err (λ e. wallet (e ∷ [])) opened, record w { disk = disk })

    -- A transfer is sent, whatever the sequencer answers.
    unfoldable pub send : lez.Core → Request i → Act i (List ℕ)
    send core t w =
        (map_err execution (lez.send core w.sent t), record w { sent = w.sent ++ (t ∷ []) })
