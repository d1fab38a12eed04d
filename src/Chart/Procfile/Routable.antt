-- ===== src/Chart/Procfile/Routable.antt =====
-- The process that receives traffic is one that the image has a command for.
use ketch.Base.{
  String, Bool, true, List, [], ◌∷◌, ◌++◌, Option, none, some, Dict, lookup, insert, lookup-insert,
  Result, ok, ◌==◌, ◌||◌, any, if◌then◌else◌, ◌≡◌, refl, ap, sym, ◌∙◌, arith, eq_iff, inl, inr,
  Bool-cases, Option-cases, Result-cases, sort_strings, insert_sorted, trim_space, remove_char,
}
use ketch.Chart.Procfile.{
  Procfile, ImageConfig, default_routable_process_name, routable_process, is_process_name,
  collect_processes, procfile_of, procfile_of_commands, create_procfile, make_procfile,
}

any-insert_sorted :
    (test : String → Bool) (s : String) (ss : List String)
    → any test (insert_sorted s ss) ≡ (test s || any test ss)
any-insert_sorted test s [] = refl
any-insert_sorted test s (t ∷ ss) = ground (arith, any-insert_sorted test s ss)

any-sort_strings :
    (test : String → Bool) (ss : List String) → any test (sort_strings ss) ≡ any test ss
unfolding sort_strings
any-sort_strings test [] = refl
any-sort_strings test (s ∷ ss) =
    any-insert_sorted test s (sort_strings ss) ∙ ap (λ b. test s || b) (any-sort_strings test ss)

first-any :
    (names : List String) (name : String)
    → elim names as (λ _. Option String) [ [] ↦ none | n ∷ rest ↦ some n ] ≡ some name
    → any (λ n. n == name) names ≡ true
first-any [] name h = cc
first-any (n ∷ rest) name h = ground (arith, eq_iff n name, h)

-- The routable process is `web` if there is one, else the first in order; it is one of the names.
pub routable_process-any :
    (names : List String) (name : String)
    → routable_process names ≡ some name
    → any (λ n. n == name) names ≡ true
unfolding routable_process
routable_process-any names name h =
    elim (Bool-cases (any (λ n. n == default_routable_process_name) names)) [
      | inl web ↦
          let e : default_routable_process_name ≡ name = ground (arith, h, web) in
          ap (λ x. any (λ n. n == x) names) (sym e) ∙ web
      | inr no_web ↦
          sym (any-sort_strings (λ n. n == name) names)
          ∙ first-any (sort_strings names) name (ground (arith, h, no_web))
    ]

-- What the loop of `CreateProcfile` collects.
collect_processes_lem :
    (types : List String) (m : Dict (List String)) (name : String)
    → lookup name (collect_processes types m).0 ≡ (
        if any (λ n. n == name) (collect_processes types m).1
        then some (trim_space name ∷ [])
        else lookup name m)
unfolding collect_processes
collect_processes_lem [] m name = refl
collect_processes_lem (t ∷ types) m name = elim (Bool-cases (is_process_name t)) [
  | inl good ↦
      rw (good, collect_processes)
        (ground (
          arith,
          collect_processes_lem types (insert t (trim_space t ∷ []) m) name,
          lookup-insert t name (trim_space t ∷ []) m,
          eq_iff t name,
          ap trim_space {x = t} {y = name},
        ))
  | inr bad ↦ rw (bad, collect_processes) (collect_processes_lem types m name)
]

procfile_of-ok :
    (processes : Dict (List String)) (names : List String) (p : Procfile)
    → procfile_of processes names ≡ ok p
    → (p.processes ≡ processes) × (any (λ n. n == p.routable_process_name) names ≡ true)
procfile_of-ok processes names p h = elim (Option-cases (routable_process names)) [
  | inl e ↦ absurd (ground (arith, h, e))
  | inr (name, e) ↦
      let same : p ≡ record { processes = processes; routable_process_name = name } =
        ground (arith, h, e) in
      (
        ap (λ q. q.processes) same,
        ap (λ q. any (λ n. n == q.routable_process_name) names) same
            ∙ routable_process-any names name e,
      )
]

-- A process that the metadata of an image names runs under its name.
create_procfile-routable :
    (decode : String → Result (List String)) (metadata : String) (p : Procfile)
    → create_procfile decode metadata ≡ ok p
    → lookup p.routable_process_name p.processes ≡ some (trim_space p.routable_process_name ∷ [])
unfolding create_procfile lookup
create_procfile-routable decode metadata p h = elim (Result-cases (decode metadata)) [
  | inr (x, e) ↦ absurd (ground (arith, h, e))
  | inl (types, e) ↦
      let made : procfile_of (collect_processes types []).0 (collect_processes types []).1 ≡ ok p =
        ground (arith, h, e) in
      let (processes, named) =
        procfile_of-ok (collect_processes types []).0 (collect_processes types []).1 p made in
      ap (lookup p.routable_process_name) processes
      ∙ collect_processes_lem types [] p.routable_process_name
      ∙ rw named refl
]

procfile_of_commands-routable :
    (cmds : List String) (p : Procfile)
    → procfile_of_commands cmds ≡ ok p
    → (cmd : List String) × (lookup p.routable_process_name p.processes ≡ some cmd)
unfolding lookup
procfile_of_commands-routable [] p h = cc
procfile_of_commands-routable (c ∷ cs) p h =
    let same : p ≡ record {
      processes = (default_routable_process_name, c ∷ cs) ∷ [];
      routable_process_name = default_routable_process_name;
    } =
      cc in
    (c ∷ cs, rw same refl)

-- The routable process of an image has a command, whatever the image's metadata decode to.
pub make_procfile-routable :
    (decode : String → Result (List String)) (cfg : ImageConfig) (p : Procfile)
    → make_procfile decode cfg ≡ ok p
    → (cmd : List String) × (lookup p.routable_process_name p.processes ≡ some cmd)
unfolding make_procfile lookup
make_procfile-routable decode cfg p h =
    elim (Option-cases (lookup "io.buildpacks.build.metadata" cfg.labels)) [
      | inr (value, e) ↦
          (_, create_procfile-routable decode (remove_char "\\" value) p (ground (arith, h, e)))
      | inl e ↦ procfile_of_commands-routable (cfg.entrypoint ++ cfg.cmd) p (ground (arith, h, e))
    ]
