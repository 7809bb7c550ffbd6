-- ===== src/AgentCli/Modules.antt =====
-- `load_all_modules` of agent-cli/src/main.rs.
pub mod Order
pub mod Framed
use lp_0008_logos_agent_modu.Base.{
  ℕ, ◌+◌, ◌-◌, not, Option, none, some, List, [], ◌∷◌, ◌++◌, leb, if◌then◌else◌, Text, lit, eq_text,
}
use lp_0008_logos_agent_modu.AgentCli.World.{
  Output, DirEntry, Host, to_stderr, failed, Act, pure, ◌>>=◌, ◌>>◌, with_context, print, println,
  output,
}
use lp_0008_logos_agent_modu.Std.Trim.{trim}

-- The filters of the directory listing: readable items, directories, names in UTF-8.
directory_name : DirEntry → Option Text
directory_name e =
    if e.readable
    then elim e.is_dir [ none ↦ none | some d ↦ if d then e.file_name else none ]
    else none

unfoldable pub directory_names : List DirEntry → List Text
unfolding directory_name
directory_names [] = []
directory_names (e ∷ es) =
    let rest = directory_names es in
    elim (directory_name e) [ none ↦ rest | some name ↦ name ∷ rest ]

-- The key by which the names are sorted.
abbrev pub load_key : Text → ℕ
load_key name = if eq_text name (lit "agent_module") then 1 else 0

-- `sort_by_key`, which is stable: an item goes before the first whose key is not smaller.
insert_by_key : Text → List Text → List Text
insert_by_key name [] = name ∷ []
insert_by_key name (n ∷ ns) =
    let later = n ∷ insert_by_key name ns in
    if leb (load_key name) (load_key n) then name ∷ n ∷ ns else later

unfoldable pub sort_by_key : List Text → List Text
unfolding insert_by_key
sort_by_key [] = []
sort_by_key (n ∷ ns) = insert_by_key n (sort_by_key ns)

-- A module that fails to load is reported, and the next is tried.
pub report_load : Text → Output → Act (Unit {0})
report_load name o =
    if not o.success
    then print (
        to_stderr
          (lit "[agent-cli] warning: load-module " ++ (name ++ (lit " failed: " ++ o.stderr))))
    else println (lit "[agent-cli] " ++ (name ++ (lit ": " ++ trim o.stdout)))

module _ (host : Host) (logoscore : Text) where
  unfoldable pub load_module : Text → Act (Unit {0})
  load_module name = do
    println (lit "[agent-cli] load-module " ++ (name ++ lit " …"))
    answer ← output host (logoscore ∷ lit "load-module" ∷ name ∷ [])
    o ← with_context answer (lit "failed to run logoscore load-module " ++ name)
    report_load name o

  unfoldable pub load_each : List Text → Act (Unit {0})
  load_each [] = pure tt
  load_each (name ∷ names) = load_module name >> load_each names

  unfoldable pub load_all_modules : Text → Act (Unit {0})
  load_all_modules modules_dir = do
    entries ←
        with_context (host.read_dir modules_dir) (lit "cannot read modules_dir: " ++ modules_dir)
    load_each (sort_by_key (directory_names entries))
