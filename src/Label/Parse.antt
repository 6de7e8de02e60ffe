-- ===== src/Label/Parse.antt =====
-- `ParseLabelSelector` of pkg/eval/label_selector.go, with the functions of package strings that it
-- calls, over characters.
use Prim.Native.Char.{Char, code}
use mcpchecker.Prelude.Assoc.{insert, lookup}
use mcpchecker.Prelude.{
  ℕ, String, str_eq, Bool, true, false, ◌||◌, ◌&&◌, Option, none, some, List, [], ◌∷◌, ◌++◌, leb,
  ◌==◌, if◌then◌else◌, concat,
}
use mcpchecker.Prelude.Result.{Result, ok, err, then_ok}

abbrev pub Requested : Type 0
Requested = List (String × List String)

-- `unicode.IsSpace`
is_space : Char → Bool
is_space c =
    let n = code c in
    (leb 9 n && leb n 13)
    || n == 0x20
    || n == 0x85
    || n == 0xA0
    || n == 0x1680
    || (leb 0x2000 n && leb n 0x200a)
    || n == 0x2028
    || n == 0x2029
    || n == 0x202f
    || n == 0x205f
    || n == 0x3000

trim_left : String → String
trim_left String.[] = ""
trim_left (String.◌∷◌ c s) = if is_space c then trim_left s else String.◌∷◌ c s

trim_right : String → String
trim_right String.[] = ""
trim_right (String.◌∷◌ c s) =
    let rest = trim_right s in if str_eq rest "" && is_space c then "" else String.◌∷◌ c rest

-- `strings.TrimSpace`
unfoldable pub trim_space : String → String
unfolding trim_left trim_right is_space
trim_space s = trim_right (trim_left s)

push : Char → List String → List String
push c [] = String.◌∷◌ c "" ∷ []
push c (p ∷ ps) = String.◌∷◌ c p ∷ ps

-- `strings.Split` by one character
unfoldable pub split : ℕ → String → List String
unfolding push
split sep String.[] = "" ∷ []
split sep (String.◌∷◌ c s) = if code c == sep then "" ∷ split sep s else push c (split sep s)

before_and_after : Char → Option (String × String) → Option (String × String)
before_and_after c none = none
before_and_after c (some (key, value)) = some (String.◌∷◌ c key, value)

-- `strings.SplitN` by one character into two parts: what stands before and after the first one.
unfoldable pub split_two : ℕ → String → Option (String × String)
unfolding before_and_after
split_two sep String.[] = none
split_two sep (String.◌∷◌ c s) =
    if code c == sep then some ("", s) else before_and_after c (split_two sep s)

unfoldable pub has_value : List String → String → Bool
has_value [] val = false
has_value (s ∷ slice) val = if str_eq s val then true else has_value slice val

-- `appendUnique`
unfoldable pub append_unique : List String → String → List String
unfolding has_value
append_unique slice val = if has_value slice val then slice else slice ++ val ∷ []

-- One pair of the selector.
unfoldable pub parse_pair : String → Result (String × String)
parse_pair pair = elim (split_two b'=' (trim_space pair)) [
  | none ↦ err (concat ("invalid label selector format, expected key=value, got: " ∷ pair ∷ []))
  | some (k, v) ↦
      if str_eq (trim_space k) "" || str_eq (trim_space v) ""
      then err "label selector key and value cannot be empty"
      else ok (trim_space k, trim_space v)
]

-- `labels[key]`, which is nil where the key is missing.
unfoldable pub values_of : String → Requested → List String
values_of k labels = elim (lookup k labels) [ none ↦ [] | some vs ↦ vs ]

unfoldable pub parse_pairs : List String → Requested → Result Requested
unfolding parse_pair values_of append_unique
parse_pairs [] labels = ok labels
parse_pairs (pair ∷ pairs) labels =
    then_ok (parse_pair pair)
      λ (k, v). parse_pairs pairs (insert k (append_unique (values_of k labels) v) labels)

unfoldable pub parse_label_selector : String → Result Requested
unfolding parse_pairs trim_space split split_two lookup insert
parse_label_selector selector =
    let trimmed = trim_space selector in
    if str_eq trimmed "" then ok [] else parse_pairs (split b',' trimmed) []
