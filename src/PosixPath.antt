-- ===== src/PosixPath.antt =====
-- `pathlib.PurePosixPath`, as far as the program uses it: parsing, `parts`, `is_absolute`, `name`, `str`.
use runtime_lab_core.Prelude.{
  String, Char, code, Bool, true, false, ◌&&◌, not, List, [], ◌∷◌, ◌==◌, ◌=ℕ=◌, ◌<>◌, starts_with,
  if◌then◌else◌, is_nonempty,
}

-- A character in front of the first piece.
abbrev pub push : Char → List String → List String
push c [] = String.◌∷◌ c String.[] ∷ []
push c (w ∷ ws) = String.◌∷◌ c w ∷ ws

abbrev pub is_slash : Char → Bool
is_slash c = code c =ℕ= b'/'

-- `s.split("/")`
unfoldable pub split_slash : String → List String
split_slash String.[] = String.[] ∷ []
split_slash (String.◌∷◌ c s) =
    let rest = split_slash s in if is_slash c then String.[] ∷ rest else push c rest

-- `"/".join(ws)`
unfoldable pub join_slash : List String → String
join_slash [] = String.[]
join_slash (w ∷ []) = w
join_slash (w ∷ (v ∷ ws)) = w <> (String.◌∷◌ "/" (join_slash (v ∷ ws)))

-- A component that is kept: not empty, and not `.`.
abbrev pub is_kept : String → Bool
is_kept w = is_nonempty w && not (w == ".")

unfoldable pub keep : List String → List String
keep [] = []
keep (w ∷ ws) = let rest = keep ws in if is_kept w then w ∷ rest else rest

-- Exactly two leading slashes are a root of their own.
unfoldable pub root_of : String → String
root_of String.[] = ""
root_of (String.◌∷◌ a String.[]) = if is_slash a then "/" else ""
root_of (String.◌∷◌ a (String.◌∷◌ b String.[])) =
    if is_slash a then (if is_slash b then "//" else "/") else ""
root_of (String.◌∷◌ a (String.◌∷◌ b (String.◌∷◌ c s))) =
    if is_slash a then (if is_slash b && not (is_slash c) then "//" else "/") else ""

pub record PurePosixPath : Type 0 where
  pub root : String
  pub tail : List String

unfoldable pub parse : String → PurePosixPath
unfolding split_slash keep root_of
parse s = record { root = root_of s; tail = keep (split_slash s) }

-- `path.parts`
unfoldable pub parts : PurePosixPath → List String
parts p = if is_nonempty p.root then p.root ∷ p.tail else p.tail

unfoldable pub is_absolute : PurePosixPath → Bool
is_absolute p = is_nonempty p.root

-- `str(path)`
unfoldable pub to_str : PurePosixPath → String
unfolding join_slash
to_str record_path = elim record_path.tail [
  | [] ↦ if is_nonempty record_path.root then record_path.root else "."
  | w ∷ ws ↦ record_path.root <> join_slash (w ∷ ws)
]

abbrev last_or_empty : List String → String
last_or_empty [] = ""
last_or_empty (w ∷ []) = w
last_or_empty (w ∷ (v ∷ ws)) = last_or_empty (v ∷ ws)

-- `path.name`
unfoldable pub name : PurePosixPath → String
name p = last_or_empty p.tail

-- `str(a / b)` before it is normalised
unfoldable pub join : String → String → String
join a b = if starts_with b "/" then b else a <> (String.◌∷◌ "/" b)

-- The words of the first list begin the second.
unfoldable pub begins : List String → List String → Bool
begins [] ws = true
begins (v ∷ vs) [] = false
begins (v ∷ vs) (w ∷ ws) = let rest = begins vs ws in if v == w then rest else false

-- `path.relative_to(root)` does not raise
unfoldable pub is_relative_to : String → String → Bool
unfolding parse parts begins
is_relative_to path root = begins (parts (parse root)) (parts (parse path))
