-- ===== src/AgentCli/World.antt =====
-- What agent-cli acts on: the `logoscore` binary and the operating system as a parameter, and the
-- trace of what the tool did to them.
pub mod Frame
pub mod Success
pub mod Goes
use lp_0008_logos_agent_modu.Base.{
  ℕ, ◌+◌, Bool, Option, none, some, List, [], ◌∷◌, ◌++◌, Result, ok, err, Text,
}

-- What a finished command leaves; the texts are decoded with `from_utf8_lossy`.
pub record Output : Type 0 where
  pub success : Bool
  pub status : Text
  pub stdout : Text
  pub stderr : Text

-- An item of `read_dir`: whether it could be read, whether it is a directory, and its name, if
-- these are known.
pub record DirEntry : Type 0 where
  pub readable : Bool
  pub is_dir : Option Bool
  pub file_name : Option Text

-- A command line, the program first.
abbrev pub CommandLine : Type 0
CommandLine = List Text

-- The answers may depend on all that was run before. A failure of the operating system has a text.
pub record Host : Type 0 where
  pub run : List CommandLine → CommandLine → Result Output Text
  pub duration_ms : List CommandLine → CommandLine → ℕ
  pub spawn : List CommandLine → CommandLine → Result ℕ Text
  pub wait : ℕ → Result Output Text
  pub canonicalize : Text → Result Text Text
  pub read_dir : Text → Result (List DirEntry) Text

pub data Line : Type 0 where
  to_stdout to_stderr : Text → Line

pub record World : Type 0 where
  pub ran : List CommandLine
  pub printed : List Line
  pub now_ms : ℕ
  pub spawned : List ℕ
  pub waited : List ℕ
  pub forgotten : List ℕ

-- An `anyhow` error: the contexts, the outermost first, and the cause.
abbrev pub Error : Type 0
Error = List Text

-- `exhausted` is a loop that was given too little fuel.
pub data Outcome (A : Type 0) : Type 0 where
  done : A → Outcome A
  failed : Error → Outcome A
  panicked exhausted : Outcome A

abbrev pub Act : Type 0 → Type 0
Act A = World → Outcome A × World

abbrev pub pure : {A : Type 0} → A → Act A
pure a w = (done a, w)

-- `bail!`
abbrev pub bail : {A : Type 0} → Text → Act A
bail message w = (failed (message ∷ []), w)

abbrev pub continue : {A B : Type 0} → Outcome A × World → (A → Act B) → Outcome B × World
continue (done a, w) f = f a w
continue (failed e, w) f = (failed e, w)
continue (panicked, w) f = (panicked, w)
continue (exhausted, w) f = (exhausted, w)

infixl 5 ◌>>=◌ ◌>>◌
abbrev pub ◌>>=◌ : {A B : Type 0} → Act A → (A → Act B) → Act B
◌>>=◌ m f w = continue (m w) f

abbrev pub ◌>>◌ : {B : Type 0} → Act (Unit {0}) → Act B → Act B
m >> k = m >>= λ _. k

-- `with_context`: a failure of the operating system becomes the cause of an error.
abbrev pub with_context : {A : Type 0} → Result A Text → Text → Act A
with_context (err cause) message w = (failed (message ∷ cause ∷ []), w)
with_context (ok a) message w = (done a, w)

abbrev pub or_panic : {A : Type 0} → Option A → Act A
or_panic none w = (panicked, w)
or_panic (some a) w = (done a, w)

abbrev pub print : Line → Act (Unit {0})
print line w = (done tt, record w { printed = w.printed ++ (line ∷ []) })

abbrev pub println : Text → Act (Unit {0})
println s = print (to_stdout s)

abbrev pub sleep : ℕ → Act (Unit {0})
sleep ms w = (done tt, record w { now_ms = w.now_ms + ms })

-- The children once one more was started, or was not.
abbrev pub started : Result ℕ Text → List ℕ → List ℕ
started (err e) pids = pids
started (ok pid) pids = pids ++ (pid ∷ [])

module _ (host : Host) where
  -- `Command::output`
  abbrev pub output : CommandLine → Act (Result Output Text)
  output cmd w = (
    done (host.run w.ran cmd),
    record w { ran = w.ran ++ (cmd ∷ []); now_ms = w.now_ms + host.duration_ms w.ran cmd },
  )

  -- `Command::spawn`, which gives the child's process id.
  abbrev pub spawn : CommandLine → Act (Result ℕ Text)
  spawn cmd w = (
    done (host.spawn w.ran cmd),
    record w { ran = w.ran ++ (cmd ∷ []); spawned = started (host.spawn w.ran cmd) w.spawned },
  )
