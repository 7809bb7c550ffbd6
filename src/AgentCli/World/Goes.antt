-- ===== src/AgentCli/World/Goes.antt =====
-- What holds after an action on success, and what holds after it in all other cases.
use mathlib.Core.Path.{subst}
use lp_0008_logos_agent_modu.Base.{◌≡◌, sym, Bool, true, false, ok, if◌then◌else◌, Result, Text}
use lp_0008_logos_agent_modu.AgentCli.World.{
  World, Outcome, done, failed, panicked, exhausted, Act, pure, continue, ◌>>=◌, ◌>>◌, with_context,
}

-- `E` stands for what holds however the action ends.
module _ (E : World → Type 0) where
  abbrev pub Arrives : {A : Type 0} → (World → Type 0) → Outcome A × World → Type 0
  Arrives Q (done a, w) = Q w
  Arrives Q (failed e, w) = E w
  Arrives Q (panicked, w) = E w
  Arrives Q (exhausted, w) = E w

  anyhow :
      (Q : World → Type 0) {A : Type 0} (r : Outcome A × World)
      → Q r.1
      → (Q r.1 → E r.1)
      → Arrives Q r
  anyhow Q (done a, w) h k = h
  anyhow Q (failed e, w) h k = k h
  anyhow Q (panicked, w) h k = k h
  anyhow Q (exhausted, w) h k = k h

  pub record Goes (P Q : World → Type 0) {A : Type 0} (m : Act A) : Type 0 where
    pub from : (w : World) → P w → Arrives Q (m w)

module _ {E : World → Type 0} where
  module _ {Q R : World → Type 0} where
    continue-Goes :
        {A B : Type 0} (r : Outcome A × World) (f : A → Act B)
        → Arrives E Q r
        → ((a : A) → Goes E Q R (f a))
        → Arrives E R (continue r f)
    continue-Goes (done a, w) f h k = (k a).from w h
    continue-Goes (failed e, w) f h k = h
    continue-Goes (panicked, w) f h k = h
    continue-Goes (exhausted, w) f h k = h

    pub bind-Goes :
        {P : World → Type 0} {A B : Type 0} {m : Act A} {f : A → Act B}
        → Goes E P Q m
        → ((a : A) → Goes E Q R (f a))
        → Goes E P R (m >>= f)
    bind-Goes {m} {f} h k = record { from = λ w p. continue-Goes (m w) f (h.from w p) k }

    pub then-Goes :
        {P : World → Type 0} {B : Type 0} (m : Act (Unit {0})) (k : Act B)
        → Goes E P Q m
        → Goes E Q R k
        → Goes E P R (m >> k)
    then-Goes m k h l = bind-Goes h (λ _. l)

  pub pure-Goes : {P : World → Type 0} {A : Type 0} (a : A) → Goes E P P (pure a)
  pure-Goes a = record { from = λ w p. p }

  pub if-Goes :
      {P Q : World → Type 0} {A : Type 0} (b : Bool) {m n : Act A}
      → Goes E P Q m
      → Goes E P Q n
      → Goes E P Q (if b then m else n)
  if-Goes true h k = h
  if-Goes false h k = k

  pub with_context-Goes :
      {P Q : World → Type 0} {A B : Type 0} {r : Result A Text} {a : A} (message : Text)
      (f : A → Act B)
      → r ≡ ok a
      → Goes E P Q (f a)
      → Goes E P Q (with_context r message >>= f)
  with_context-Goes {P} {Q} message f h k =
      subst (λ q. Goes E P Q (with_context q message >>= f)) (sym h) (record { from = k.from })

  pub always-Goes :
      {P Q : World → Type 0} {A : Type 0} {m : Act A}
      → ((w : World) → Q w → E w)
      → ((w : World) → P w → Q (m w).1)
      → Goes E P Q m
  always-Goes {Q} {m} weaker h = record { from = λ w p. anyhow E Q (m w) (h w p) (weaker (m w).1) }
