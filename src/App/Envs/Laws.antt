-- ===== src/App/Envs/Laws.antt =====
-- Setting, reading and removing variables.
use ketch.Base.{
  String, false, List, [], ◌∷◌, Option, none, some, Dict, lookup, insert, delete, lookup-insert,
  lookup-delete, ◌==◌, if◌then◌else◌, ◌≡◌, refl, ap, sym, ◌∙◌, arith, eq_iff, inl, inr, ◌⊎◌,
  Bool-cases, Option-cases,
}
use ketch.App.{Env, App}
use ketch.App.Envs.{
  names_of, values, replace_envs, set_envs, has_name, is_wanted, collect_envs, envs_of, remove_envs,
  unset_envs,
}

-- The value that a name stands for: that of the last variable of the name.
abbrev pub last_value : String → List Env → Option String
last_value name [] = none
last_value name (env ∷ envs) = elim (last_value name envs) [
  | some v ↦ some v
  | none ↦ if env.name == name then some env.value else none
]

abbrev pub or_else {ℓ} : {A : Type ℓ} → Option A → Option A → Option A
or_else none o = o
or_else (some a) o = some a

-- Equal names, or names that the test tells apart.
String-cases : (s t : String) → (s ≡ t) ⊎ ((s == t) ≡ false)
String-cases s t = elim (Bool-cases (s == t)) [ inl e ↦ inl ((eq_iff s t).0 e) | inr e ↦ inr e ]

collect_envs_lem :
    (names : List String) (name : String) (es : List Env) (envs : Dict String)
    → lookup name (collect_envs names es envs) ≡ (
        if is_wanted names name
        then or_else (last_value name es) (lookup name envs)
        else lookup name envs)
unfolding collect_envs
collect_envs_lem names name [] envs = ground arith
collect_envs_lem names name (e ∷ es) envs =
    collect_envs_lem names name es
      (if is_wanted names e.name then insert e.name e.value envs else envs)
    ∙ elim (String-cases e.name name) [
      | inl same ↦ rw same (ground (arith, lookup-insert name name e.value envs, eq_iff name name))
      | inr other ↦ ground (arith, other, lookup-insert e.name name e.value envs)
    ]

pub lookup-envs_of :
    (names : List String) (name : String) (app : App)
    → lookup name (envs_of names app)
      ≡ (if is_wanted names name then last_value name app.spec.env else none)
unfolding envs_of lookup
lookup-envs_of names name app = collect_envs_lem names name app.spec.env [] ∙ ground arith

-- `UnsetEnvs` removes the named variables and keeps the values of the others.
remove_envs_lem :
    (names : List String) (name : String) (es : List Env)
    → last_value name (remove_envs names es)
      ≡ (if has_name names name then none else last_value name es)
unfolding remove_envs
remove_envs_lem names name [] = ground arith
remove_envs_lem names name (e ∷ es) =
    ground (arith, remove_envs_lem names name es, eq_iff e.name name)

-- The map's variables have the names that they are kept under, each name once.
abbrev Keyed : Dict Env → Type 0
Keyed [] = Unit
Keyed ((k, e) ∷ m) = (e.name ≡ k) × (lookup k m ≡ none) × Keyed m

-- No two variables have one name.
abbrev pub Distinct : List Env → Type 0
Distinct [] = Unit
Distinct (e ∷ es) = (last_value e.name es ≡ none) × Distinct es

abbrev value_in : Dict Env → String → Option String
value_in m name = elim (lookup name m) [ none ↦ none | some e ↦ some e.value ]

values_lem : (m : Dict Env) (name : String) → Keyed m → last_value name (values m) ≡ value_in m name
unfolding lookup
values_lem [] name h = refl
values_lem ((k, e) ∷ m) name (h, fresh, hs) =
    ground (arith, values_lem m name hs, h, fresh, eq_iff k name, eq_iff e.name name)

Keyed-insert : (k : String) (e : Env) (m : Dict Env) → e.name ≡ k → Keyed m → Keyed (insert k e m)
unfolding insert lookup
Keyed-insert k e [] h p = (h, refl, tt)
Keyed-insert k e ((j, f) ∷ m) h (named, fresh, p) = elim (Bool-cases (j == k)) [
  | inl same ↦ rw (same, insert) (h, ap (λ i. lookup i m) (sym ((eq_iff j k).0 same)) ∙ fresh, p)
  | inr other ↦
      rw (other, insert)
        (
          named,
          ground (arith, lookup-insert k j e m, eq_iff k j, eq_iff j k),
          Keyed-insert k e m h p,
        )
]

Keyed-delete : (k : String) (m : Dict Env) → Keyed m → Keyed (delete k m)
unfolding delete lookup
Keyed-delete k [] p = tt
Keyed-delete k ((j, f) ∷ m) (named, fresh, p) =
    ground (arith, Keyed-delete k m p, lookup-delete k j m, fresh)

names_of-Keyed : (es : List Env) (m : Dict Env) → Keyed m → Keyed (names_of es m)
unfolding names_of
names_of-Keyed [] m p = p
names_of-Keyed (e ∷ es) m p = names_of-Keyed es (insert e.name e m) (Keyed-insert e.name e m refl p)

names_of_lem :
    (es : List Env) (m : Dict Env) (name : String)
    → value_in (names_of es m) name ≡ or_else (last_value name es) (value_in m name)
unfolding names_of
names_of_lem [] m name = refl
names_of_lem (e ∷ es) m name =
    ground (arith, names_of_lem es (insert e.name e m) name, lookup-insert e.name name e m)

Keyed-name : (m : Dict Env) (k : String) (e : Env) → Keyed m → lookup k m ≡ some e → e.name ≡ k
unfolding lookup
Keyed-name [] k e p h = cc
Keyed-name ((j, f) ∷ m) k e (named, fresh, p) h =
    ground (arith, Keyed-name m k e p, eq_iff j k, named, h)

value_in-delete :
    (k name : String) (m : Dict Env)
    → value_in (delete k m) name ≡ (if k == name then none else value_in m name)
value_in-delete k name m = ground (arith, lookup-delete k name m)

-- The provided variables win over the current ones.
replace_envs_lem :
    (m : Dict Env) (es : List Env) (name : String)
    → Keyed m
    → Distinct es
    → last_value name (replace_envs m es) ≡ or_else (value_in m name) (last_value name es)
unfolding replace_envs
replace_envs_lem m [] name p d = values_lem m name p ∙ ground arith
replace_envs_lem m (e ∷ es) name p (fresh, d) = elim (Option-cases (lookup e.name m)) [
  | inl unset ↦
      let rest = replace_envs_lem m es name p d in
      rw (unset, replace_envs)
        (elim (String-cases e.name name) [
          | inl same ↦ ground (arith, rest, sym (ap (λ k. lookup k m) same) ∙ unset)
          | inr other ↦ ground (arith, rest, other)
        ])
  | inr (new_env, there) ↦
      let rest =
        replace_envs_lem (delete e.name m) es name (Keyed-delete e.name m p) d
        ∙ ap (λ o. or_else o (last_value name es)) (value_in-delete e.name name m) in
      let named = Keyed-name m e.name new_env p there in
      rw (there, replace_envs)
        (elim (String-cases e.name name) [
          | inl same ↦ ground (
            arith,
            rest,
            sym (ap (λ k. lookup k m) same) ∙ there,
            sym (ap (λ k. last_value k es) same) ∙ fresh,
            ap (λ n. n == name) named,
            eq_iff e.name name,
            same,
          )
          | inr other ↦ ground (arith, rest, other, ap (λ n. n == name) named)
        ])
]

-- After `SetEnvs` a name stands for the last provided value, or for the one it had.
pub last_value-set_envs :
    (es : List Env) (app : App) (name : String)
    → Distinct app.spec.env
    → last_value name (set_envs es app).spec.env
      ≡ or_else (last_value name es) (last_value name app.spec.env)
unfolding set_envs lookup
last_value-set_envs es app name d =
    replace_envs_lem (names_of es []) app.spec.env name (names_of-Keyed es [] tt) d
    ∙ ground (arith, names_of_lem es [] name)

pub last_value-unset_envs :
    (names : List String) (app : App) (name : String)
    → last_value name (unset_envs names app).spec.env
      ≡ (if has_name names name then none else last_value name app.spec.env)
unfolding unset_envs
last_value-unset_envs names app name = remove_envs_lem names name app.spec.env
