-- ===== src/AgentCli/World/Success.antt =====
-- Actions that succeed from a world with one property and leave a world with another.
use mathlib.Core.Path.{subst}
use lp_0008_logos_agent_modu.Base.{
  ◌≡◌, refl, sym, Bool, true, false, if◌then◌else◌, ok, Result, Text,
}
use lp_0008_logos_agent_modu.AgentCli.World.{
  Host, World, Line, Outcome, done, failed, panicked, exhausted, Act, pure, continue, ◌>>=◌, ◌>>◌,
  with_context, print,
}
use lp_0008_logos_agent_modu.AgentCli.World.Frame.{IsFrame, Within}

-- From a world with the first property, the action succeeds, and leaves one with the second.
pub record Succeeds (P Q : World → Type 0) {A : Type 0} (m : Act A) : Type 0 where
  pub from : (w : World) → P w → (a : A) × ((m w).0 ≡ done a) × Q (m w).1

module _ {Q R : World → Type 0} where
  continue-Succeeds :
      {A B : Type 0} (r : Outcome A × World) (f : A → Act B)
      → (a : A) × (r.0 ≡ done a) × Q r.1
      → ((a : A) → Succeeds Q R (f a))
      → (b : B) × ((continue r f).0 ≡ done b) × R (continue r f).1
  continue-Succeeds (done a, w) f (_, e, p) k = (k a).from w p
  continue-Succeeds (failed e', w) f (a, e, p) k = absurd (cc)
  continue-Succeeds (panicked, w) f (a, e, p) k = absurd (cc)
  continue-Succeeds (exhausted, w) f (a, e, p) k = absurd (cc)

  pub bind-Succeeds :
      {P : World → Type 0} {A B : Type 0} {m : Act A} {f : A → Act B}
      → Succeeds P Q m
      → ((a : A) → Succeeds Q R (f a))
      → Succeeds P R (m >>= f)
  bind-Succeeds {m} {f} h k = record { from = λ w p. continue-Succeeds (m w) f (h.from w p) k }

  pub then-Succeeds :
      {P : World → Type 0} {B : Type 0} (m : Act (Unit {0})) (k : Act B)
      → Succeeds P Q m
      → Succeeds Q R k
      → Succeeds P R (m >> k)
  then-Succeeds m k h l = bind-Succeeds h (λ _. l)

module _ {P : World → Type 0} where
  pub pure-Succeeds : {A : Type 0} (a : A) → Succeeds P P (pure a)
  pure-Succeeds a = record { from = λ w p. (a, refl, p) }

  pub if-Succeeds :
      {A : Type 0} (b : Bool) {m n : Act A}
      → Succeeds P P m
      → Succeeds P P n
      → Succeeds P P (if b then m else n)
  if-Succeeds true h k = h
  if-Succeeds false h k = k

-- The operating system answers with a success.
pub with_context-Succeeds :
    {P Q : World → Type 0} {A B : Type 0} {r : Result A Text} {a : A} (message : Text)
    (f : A → Act B)
    → r ≡ ok a
    → Succeeds P Q (f a)
    → Succeeds P Q (with_context r message >>= f)
with_context-Succeeds {P} {Q} {B} message f h k =
    subst (λ q. Succeeds P Q (with_context q message >>= f)) (sym h) (record { from = k.from })

-- A frame relation that keeps the condition.
abbrev pub Keeps : (World → World → Type 0) → (World → Type 0) → Type 0
Keeps R P = (u v : World) → R u v → P u → P v

module _ {host : Host} {R : World → World → Type 0} {P : World → Type 0} (fr : IsFrame host R)
    (keeps : Keeps R P) where
  pub Within-Succeeds :
      {A : Type 0} {m : Act A}
      → Within R m
      → ((w : World) → P w → (a : A) × ((m w).0 ≡ done a))
      → Succeeds P P m
  Within-Succeeds {m} within ends = record {
    from = λ w p. let (a, e) = ends w p in (a, e, keeps w (m w).1 (within.holds w) p);
  }

  pub print-Succeeds : (line : Line) → Succeeds P P (print line)
  print-Succeeds line = record {
    from = λ w p. (tt, refl, keeps w (print line w).1 (fr.prints line w) p);
  }
