-- ===== src/StateFile.antt =====
-- How the daemon's small JSON stores reach the disk: `load` and `save` of
-- crates/lixun-daemon/src/{blocklist,frecency,query_latch,symlink_alias}.rs, which differ in the
-- file's name only. The directory is a function from paths to what a read finds there. The JSON
-- library is a parameter (`Json`).
pub mod Crash
mod Tests
use lixun.Common.{ℕ, Bool, true, false, Option, none, some, List, [], ◌∷◌, ◌++◌, if◌then◌else◌}
use lixun.Common.Text.{Text, text_eq, codes}

-- What `exists` and `read_to_string` find at a path.
pub data FileState : Type 0 where
  missing : FileState
  unreadable : FileState
  content : Text → FileState

abbrev pub Disk : Type 0
Disk = Text → FileState

pub update : Disk → Text → FileState → Disk
update d p f q = if text_eq p q then f else d q

-- The file-system calls of `save`.
pub data Call : Type 0 where
  create_dir_all : Text → Call
  write : Text → Text → Call
  rename : Text → Text → Call

unfoldable pub exec : Call → Disk → Disk
unfolding update
exec (create_dir_all p) d = d
exec (write p s) d = update d p (content s)
exec (rename p q) d = update (update d q (d p)) p missing

unfoldable pub exec_all : List Call → Disk → Disk
exec_all [] d = d
exec_all (c ∷ cs) d = exec_all cs (exec c d)

-- `state_dir.join(name)`.
unfoldable pub join : Text → Text → Text
join dir name = dir ++ codes "/" ++ name

-- The calls of an atomic save: the content goes to `<name>.tmp`, which is renamed over `<name>`.
unfoldable pub save_calls : Text → Text → Text → List Call
save_calls dir name s =
    create_dir_all dir
    ∷ write (join dir (name ++ codes ".tmp")) s
    ∷ rename (join dir (name ++ codes ".tmp")) (join dir name)
    ∷ []

-- serde_json for a store's type: printing, and parsing of what was printed.
pub record Json (S : Type 0) : Type 0 where
  pub to_json : S → Text
  pub from_json : Text → Option S

module _ {S : Type 0} (json : Json S) where
  -- `serde_json::from_str`, with the empty store in place of a parse error.
  unfoldable pub parse_or : S → Text → S
  parse_or empty s = elim (json.from_json s) [ none ↦ empty | some x ↦ x ]

  unfoldable pub load_from : S → FileState → S
  unfolding parse_or
  load_from empty missing = empty
  load_from empty unreadable = empty
  load_from empty (content s) = parse_or empty s

  unfoldable pub load : S → Text → Text → Disk → S
  unfolding load_from
  load empty name dir d = load_from empty (d (join dir name))

  unfoldable pub save : Text → S → Text → List Call
  save name x dir = save_calls dir name (json.to_json x)
