-- ===== src/Chart/Procfile.antt =====
-- internal/chart/procfile.go and `makeProcfile` of internal/deploy/deploy.go: the processes of an
-- image and the one that receives traffic.
pub mod Routable
use Prim.Native.Char.{Char, code}
use ketch.Base.{
  String, Bool, true, false, List, [], ◌∷◌, ◌++◌, map, Option, none, some, Dict, lookup, insert,
  Result, ok, err, message, if◌then◌else◌, ◌==◌, ◌&&◌, ◌||◌, not, any, leb, beq, all_chars,
  trim_space, remove_char, sort_strings,
}
use ketch.App.{ProcessSpec}

pub record Procfile : Type 0 where
  pub processes : Dict (List String)
  pub routable_process_name : String

abbrev pub default_routable_process_name : String
default_routable_process_name = "web"

unfoldable pub is_routable : Procfile → String → Bool
is_routable p process_name = p.routable_process_name == process_name

abbrev pub keys {ℓ} : {V : Type ℓ} → Dict V → List String
keys [] = []
keys ((k, v) ∷ m) = k ∷ keys m

-- `SortedNames`
unfoldable pub sorted_names : Procfile → List String
unfolding sort_strings
sorted_names p = sort_strings (keys p.processes)

-- `routableProcess`; with no name an index is out of range.
unfoldable pub routable_process : List String → Option String
unfolding sort_strings
routable_process names =
    if any (λ name. name == default_routable_process_name) names
    then some default_routable_process_name
    else (elim (sort_strings names) [ [] ↦ none | name ∷ rest ↦ some name ])

-- processNameRegex: ^([A-Za-z0-9_-]+)$
abbrev is_name_char : Char → Bool
is_name_char c =
    let n = code c in
    (leb 65 n && leb n 90)
    || (leb 97 n && leb n 122)
    || (leb 48 n && leb n 57)
    || beq n 95
    || beq n 45

unfoldable pub is_process_name : String → Bool
unfolding all_chars
is_process_name name = not (name == "") && all_chars is_name_char name

-- The loop of `CreateProcfile` over the types of the decoded metadata.
unfoldable pub collect_processes :
    List String → Dict (List String) → Dict (List String) × List String
unfolding is_process_name insert trim_space
collect_processes [] processes = (processes, [])
collect_processes (name ∷ types) processes = elim (is_process_name name) [
  | true ↦
      (let (found, names) =
          collect_processes types (insert name (trim_space name ∷ []) processes) in
        (found, name ∷ names))
  | false ↦ collect_processes types processes
]

-- `ErrEmptyProcfile`
abbrev pub empty_procfile : Result Procfile
empty_procfile = err (message "procfile should contain at least one process name with a command")

-- A procfile with the given processes, whose names were collected in `names`.
abbrev pub procfile_of : Dict (List String) → List String → Result Procfile
procfile_of processes names = elim (routable_process names) [
  | none ↦ empty_procfile
  | some routable ↦ ok (record { processes = processes; routable_process_name = routable })
]

-- `CreateProcfile`; `decode` is the JSON decoding of the metadata to the types of its processes.
unfoldable pub create_procfile : (String → Result (List String)) → String → Result Procfile
unfolding collect_processes routable_process
create_procfile decode metadata = elim (decode metadata) [
  | err e ↦ err e
  | ok types ↦ (let (processes, names) = collect_processes types [] in procfile_of processes names)
]

unfoldable pub spec_processes : List ProcessSpec → Dict (List String) → Dict (List String)
unfolding insert
spec_processes [] processes = processes
spec_processes (spec ∷ specs) processes = spec_processes specs (insert spec.name spec.cmd processes)

-- `ProcfileFromProcesses`
unfoldable pub procfile_from_processes : List ProcessSpec → Result Procfile
unfolding spec_processes routable_process
procfile_from_processes specs =
    procfile_of (spec_processes specs []) (map (λ spec. spec.name) specs)

-- The part of an image's configuration that the code reads.
pub record ImageConfig : Type 0 where
  pub labels : Dict String
  pub entrypoint : List String
  pub cmd : List String
  pub exposed_ports : List String

-- The procfile of an image that pack did not make.
abbrev pub procfile_of_commands : List String → Result Procfile
procfile_of_commands [] = err (message "can't use image, no entrypoint or commands")
procfile_of_commands (c ∷ cs) = ok (record {
  processes = (default_routable_process_name, c ∷ cs) ∷ [];
  routable_process_name = default_routable_process_name;
})

-- `makeProcfile`
unfoldable pub make_procfile : (String → Result (List String)) → ImageConfig → Result Procfile
unfolding lookup remove_char create_procfile
make_procfile decode cfg = elim (lookup "io.buildpacks.build.metadata" cfg.labels) [
  | some value ↦ create_procfile decode (remove_char "\\" value)
  | none ↦ procfile_of_commands (cfg.entrypoint ++ cfg.cmd)
]
