-- ===== src/Base/Path.antt =====
-- path.Join of Go's standard library, for elements the first of which is a relative path, and for a
-- directory and a name.
use Prim.Native.Char.{Char, code}
use Prim.Native.String.{String}
use mathlib.Core.List.{List, [], ◌∷◌, ◌++◌, foldl}
use text.Mathlib.Text.{◌==◌}
use distributed_test_runner.Base.Tests.{nat_eq, if◌then◌else◌}
use distributed_test_runner.Base.Text.{concat}
use distributed_test_runner.Base.Scan.{has_prefix, cut_prefix}

abbrev put_char : Char → List String → List String
put_char c [] = String.◌∷◌ c "" ∷ []
put_char c (s ∷ ss) = String.◌∷◌ c s ∷ ss

-- The parts of a text between its slashes.
unfoldable pub segments : String → List String
segments String.[] = "" ∷ []
segments (String.◌∷◌ c s) =
    let rest = segments s in if nat_eq (code c) 47 then "" ∷ rest else put_char c rest

-- The stack of segments, last one first; `..` takes one back where there is one.
abbrev back : List String → List String
back [] = ".." ∷ []
back (s ∷ ss) = if s == ".." then ".." ∷ s ∷ ss else ss

unfoldable pub push : List String → String → List String
push stack s =
    if s == ""
    then stack
    else if s == "."
    then stack
    else if s == ".."
    then back stack
    else s ∷ stack

unfoldable pub slashed : List String → String → String
slashed [] rest = rest
slashed (s ∷ ss) rest = slashed ss (if rest == "" then s else concat (s ∷ "/" ∷ rest ∷ []))

abbrev dot_or : String → String
dot_or s = if s == "" then "." else s

unfoldable pub all_segments : List String → List String
unfolding segments
all_segments [] = []
all_segments (e ∷ es) = segments e ++ all_segments es

unfoldable pub join_path : List String → String
unfolding all_segments push slashed
join_path es = dot_or (slashed (foldl push [] (all_segments es)) "")

-- The stack of a rooted path, where `..` goes no further than the root.
unfoldable pub push_rooted : List String → String → List String
unfolding push
push_rooted [] s = if s == ".." then [] else push [] s
push_rooted (t ∷ ts) s = push (t ∷ ts) s

-- path.Join of a directory, which may be rooted, and a name in it.
unfoldable pub join_dir : String → String → String
unfolding cut_prefix all_segments push_rooted join_path slashed
join_dir dir name =
    if has_prefix dir "/"
    then concat ("/" ∷ slashed (foldl push_rooted [] (all_segments (dir ∷ name ∷ []))) "" ∷ [])
    else join_path (dir ∷ name ∷ [])
