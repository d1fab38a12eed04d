-- ===== src/Base/Strings.antt =====
-- What the code uses of Go's `strings`, `sort` and `strconv.ParseBool`.
use Prim.Native.Nat.{Ordering}
use Prim.Native.Char.{Char, code}
use Prim.Native.String.{String, compare, [], ◌∷◌}
use mathlib.Core.List.{List}
use mathlib.Core.Bool.{Bool, true, false, ◌&&◌, ◌||◌}
use mathlib.Core.Option.{Option, none, some}
use text.Mathlib.Text.{◌==◌}
use ketch.Base.Tests.{leb, beq, if◌then◌else◌}
use ketch.Base.Lists.{any}

-- strings.Split with a separator of one character.
push_char : Char → List String → List String
push_char c List.[] = List.◌∷◌ (c ∷ "") List.[]
push_char c (List.◌∷◌ s ss) = List.◌∷◌ (c ∷ s) ss

unfoldable pub split : Char → String → List String
unfolding push_char
split sep [] = List.◌∷◌ "" List.[]
split sep (c ∷ s) =
    let rest = split sep s in if beq (code c) (code sep) then List.◌∷◌ "" rest else push_char c rest

-- strings.SplitN(s, sep, 2), when the separator is there.
unfoldable pub split_once : Char → String → Option (String × String)
split_once sep [] = none
split_once sep (c ∷ s) =
    let rest = split_once sep s in
    if beq (code c) (code sep)
    then some ("", s)
    else (elim rest [ none ↦ none | some p ↦ some (c ∷ p.0, p.1) ])

-- unicode.IsSpace
abbrev is_space : Char → Bool
is_space c =
    let n = code c in
    (leb 9 n && leb n 13)
    || beq n 32
    || beq n 133
    || beq n 160
    || beq n 5760
    || (leb 8192 n && leb n 8202)
    || beq n 8232
    || beq n 8233
    || beq n 8239
    || beq n 8287
    || beq n 12288

trim_left : String → String
trim_left [] = ""
trim_left (c ∷ s) = if is_space c then trim_left s else c ∷ s

trim_right : String → String
trim_right [] = ""
trim_right (c ∷ s) = let rest = trim_right s in if is_space c && rest == "" then "" else c ∷ rest

-- strings.TrimSpace
unfoldable pub trim_space : String → String
unfolding trim_left trim_right
trim_space s = trim_right (trim_left s)

-- strings.ReplaceAll(s, c, "") for one character.
unfoldable pub remove_char : Char → String → String
remove_char sep [] = ""
remove_char sep (c ∷ s) =
    let rest = remove_char sep s in if beq (code c) (code sep) then rest else c ∷ rest

-- strings.HasPrefix
unfoldable pub has_prefix : String → String → Bool
has_prefix s [] = true
has_prefix [] (d ∷ t) = false
has_prefix (c ∷ s) (d ∷ t) = beq (code c) (code d) && has_prefix s t

-- strings.Contains, the text that is looked for first
unfoldable pub contains : String → String → Bool
unfolding has_prefix
contains text [] = has_prefix [] text
contains text (c ∷ s) = has_prefix (c ∷ s) text || contains text s

-- Every character of the text passes the test.
unfoldable pub all_chars : (Char → Bool) → String → Bool
all_chars test [] = true
all_chars test (c ∷ s) = test c && all_chars test s

-- strconv.ParseBool
unfoldable pub parse_bool : String → Option Bool
parse_bool s =
    if any (λ t. t == s)
      (List.◌∷◌ "1"
        (List.◌∷◌ "t" (List.◌∷◌ "T" (List.◌∷◌ "TRUE" (List.◌∷◌ "true" (List.◌∷◌ "True" List.[]))))))
    then some true
    else if any (λ t. t == s)
        (List.◌∷◌ "0" (
          List.◌∷◌ "f"
            (List.◌∷◌ "F" (List.◌∷◌ "FALSE" (List.◌∷◌ "false" (List.◌∷◌ "False" List.[]))))))
    then some false
    else none

-- The order of `<` on strings.
abbrev pub leb_String : String → String → Bool
leb_String s t = elim (compare s t) [ Ordering.gt ↦ false | _ ↦ true ]

-- sort.Strings
abbrev pub insert_sorted : String → List String → List String
insert_sorted s List.[] = List.◌∷◌ s List.[]
insert_sorted s (List.◌∷◌ t ts) =
    let rest = insert_sorted s ts in
    if leb_String s t then List.◌∷◌ s (List.◌∷◌ t ts) else List.◌∷◌ t rest

unfoldable pub sort_strings : List String → List String
sort_strings List.[] = List.[]
sort_strings (List.◌∷◌ s ss) = insert_sorted s (sort_strings ss)
