-- ===== src/Scheduler/Cache.antt =====
-- src/smart_build/cache.py: what a task reads is hashed into a signature, and a stamp file keeps the
-- signature of the last run. SHA-256 over the JSON text of a value is a parameter, since neither
-- is the program's own; `json.dumps` sorts the keys there. A directory's node lists what
-- `sorted(directory.rglob("*"))` gives. A stamp that is JSON but no object is not modelled.
pub mod Hits
use smart_build.Prelude.{
  ℕ, zero, suc, beq, String, Bool, true, false, not, List, [], ◌∷◌, ◌++◌, map, Option, none, some,
  all, take, null, ◌&&◌, ◌||◌, if◌then◌else◌,
}
use Prim.Native.Char.{Char, code}
use Prim.Native.String.{◌++◌ as ◌⧺◌}
use smart_build.Prelude.Texts.{◌==◌, elem, update}
use smart_build.Prelude.Errors.{Result, ok, err}
use smart_build.Tasks.Task.{Task}

-- what stands in a directory, with its path relative to it
pub data Child : Type 0 where
  link : (path mode to : String) → Child
  plain : (path mode content : String) → Child
  folder : (path mode : String) (is_empty : Bool) → Child
  special : (path : String) → Child

-- What a path names. The target of a symbolic link may be missing.
pub data Node : Type 0 where
  symlink : (mode to : String) (resolves : Bool) → Node
  file : (mode content : String) → Node
  directory : (mode : String) (children : List Child) → Node
  other : Node

abbrev pub Disk : Type 0
Disk = String → Option Node

pub data Entry : Type 0 where
  link_entry : (path mode to : String) → Entry
  file_entry : (path mode content_sha256 : String) → Entry
  directory_entry : (path type mode : String) → Entry

pub data PathRecord : Type 0 where
  missing : (path : String) → PathRecord
  symlink_record : (path mode to sha256 : String) → PathRecord
  file_record : (path mode sha256 : String) → PathRecord
  directory_record : (path mode : String) (entries : List Entry) (sha256 : String) → PathRecord
  other_record : (path : String) → PathRecord

-- the values whose JSON text is hashed
pub data Payload : Type 0 where
  link_payload : (mode to : String) → Payload
  file_payload : (mode content_sha256 : String) → Payload
  entries_payload : List Entry → Payload
  command_payload :
      (command : List String) (env cache_extra : List (String × String)) (executor : Option String)
      → Payload
  task_payload :
      (id domain action : String) (inputs : List PathRecord) (outputs : List String)
      (workdir run_class command_hash : String)
      → Payload

-- hashlib.sha256 of a text, and of the JSON text of a value; and str.isalnum of a character
pub record Hashing : Type 0 where
  pub sha256_text : String → String
  pub sha256_json : Payload → String
  pub is_alnum : Char → Bool

pub data Stamp : Type 0 where
  unreadable : Stamp
  stamp : (task_id signature : String) (outputs : List String) → Stamp

-- what becomes of writing a stamp file: it is written, or it raises, with the stamp it leaves or with
-- the file as it was
pub data StampFault : Type 0 where
  no_fault : StampFault
  raises : (text : String) (left : Option Stamp) → StampFault

-- the stamp files, by name
abbrev pub Stamps : Type 0
Stamps = String → Option Stamp

-- `Path.exists`, which follows a symbolic link
unfoldable pub exists : Disk → String → Bool
exists disk path = elim (disk path) [
  | none ↦ false
  | some node ↦ elim node [
    | symlink _ _ resolves ↦ resolves
    | file _ _ ↦ true
    | directory _ _ ↦ true
    | other ↦ true
  ]
]

unfoldable pub outputs_exist : Disk → List String → Bool
unfolding exists
outputs_exist disk outputs = all (exists disk) outputs

-- `"".join(f(char) for char in text)` and `text[:n]`
map_chars : (Char → Char) → String → String
map_chars f String.[] = String.[]
map_chars f (String.◌∷◌ c s) = String.◌∷◌ (f c) (map_chars f s)

take_chars : ℕ → String → String
take_chars zero s = String.[]
take_chars (suc n) String.[] = String.[]
take_chars (suc n) (String.◌∷◌ c s) = String.◌∷◌ c (take_chars n s)

module _ (h : Hashing) where
  unfoldable pub directory_entries : List Child → List Entry
  directory_entries [] = []
  directory_entries (link path mode to ∷ rest) = link_entry path mode to ∷ directory_entries rest
  directory_entries (plain path mode content ∷ rest) =
      file_entry path mode (h.sha256_text content) ∷ directory_entries rest
  directory_entries (folder path mode is_empty ∷ rest) =
      directory_entry path (if is_empty then "empty-directory" else "directory") mode
      ∷ directory_entries rest
  directory_entries (special path ∷ rest) = directory_entries rest

  -- `sha256_path`; it raises for what is neither a link, a file nor a directory
  unfoldable pub sha256_node : Node → Option String
  unfolding directory_entries
  sha256_node (symlink mode to _) = some (h.sha256_json (link_payload mode to))
  sha256_node (directory _ children) =
      some (h.sha256_json (entries_payload (directory_entries children)))
  sha256_node (file mode content) = some (h.sha256_json (file_payload mode (h.sha256_text content)))
  sha256_node other = none

  unfoldable pub path_record : Disk → String → PathRecord
  unfolding directory_entries
  path_record disk path = elim (disk path) [
    | none ↦ missing path
    | some node ↦ elim node [
      | symlink mode to _ ↦ symlink_record path mode to (h.sha256_json (link_payload mode to))
      | file mode content ↦
          file_record path mode (h.sha256_json (file_payload mode (h.sha256_text content)))
      | directory mode children ↦
          directory_record path mode (directory_entries children)
            (h.sha256_json (entries_payload (directory_entries children)))
      | other ↦ other_record path
    ]
  ]

  -- `Task.command_hash`
  unfoldable pub command_hash : Task → String
  command_hash task =
      h.sha256_json (command_payload task.command task.env task.cache_extra task.executor)

  unfoldable pub signature : Disk → Task → String
  unfolding path_record command_hash
  signature disk task = h.sha256_json (
      task_payload task.id task.domain task.action (map (path_record disk) task.inputs) task.outputs
        task.workdir task.run_class (command_hash task))

  abbrev safe_char : Char → Char
  safe_char c =
      if h.is_alnum c || beq (code c) b'.' || beq (code c) b'_' || beq (code c) b'-' then c else "_"

  -- the name of a task's stamp file
  unfoldable pub stamp_path : Task → String
  unfolding map_chars take_chars
  stamp_path task =
      let digest = take_chars 16 (h.sha256_text task.id) in
      let safe_prefix = take_chars 40 (map_chars safe_char task.id) in
      (if safe_prefix == "" then "task" else safe_prefix) ⧺ "-" ⧺ digest ⧺ ".json"

  unfoldable pub is_hit : Disk → Stamps → Task → Bool
  is_hit disk stamps task =
      if not (task.cache_policy == "inputs") then false else elim (stamps (stamp_path task)) [
        | none ↦ false
        | some found ↦ elim found [
          | unreadable ↦ false
          | stamp _ signed _ ↦ signed == signature disk task && outputs_exist disk task.outputs
        ]
      ]

  -- `mkdir` and `write_text`, with the text of what they raise
  abbrev pub put_stamp : StampFault → String → Stamp → Stamps → Stamps × Option String
  put_stamp no_fault name new stamps = (update stamps name (some new), none)
  put_stamp (raises text none) name new stamps = (stamps, some text)
  put_stamp (raises text (some left)) name new stamps = (update stamps name (some left), some text)

  unfoldable pub write : StampFault → Disk → Stamps → Task → Stamps × Option String
  unfolding update
  write fault disk stamps task =
      if not (task.cache_policy == "inputs")
      then (stamps, none)
      else put_stamp fault (stamp_path task) (stamp task.id (signature disk task) task.outputs)
          stamps
