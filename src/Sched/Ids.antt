-- ===== src/Sched/Ids.antt =====
-- internal/sched/ids.go: the identifier of a regression that its user names.
use Prim.Native.Char.{Char, code}
use distributed_test_runner.Base.{
  ℕ, String, Bool, true, false, ◌&&◌, ◌||◌, if◌then◌else◌, leb, nat_eq,
}

abbrev between : (low high : ℕ) → Char → Bool
between low high c = leb low (code c) && leb (code c) high

abbrev pub is_dash : Char → Bool
is_dash c = nat_eq (code c) 45

-- The class [A-Za-z0-9._-].
unfoldable pub is_plain : Char → Bool
is_plain c =
    between 65 90 c
    || between 97 122 c
    || between 48 57 c
    || nat_eq (code c) 46
    || nat_eq (code c) 95
    || is_dash c

-- idSanitizer.ReplaceAllString(id, "-"); `gap` says that the character before was replaced.
unfoldable pub replace_gaps : (gap : Bool) → String → String
unfolding is_plain
replace_gaps gap String.[] = ""
replace_gaps gap (String.◌∷◌ c s) =
    let after_plain = replace_gaps false s in
    let after_gap = replace_gaps true s in
    if is_plain c
    then String.◌∷◌ c after_plain
    else if gap
    then after_gap
    else String.◌∷◌ "-" after_gap

unfoldable pub trim_left : String → String
trim_left String.[] = ""
trim_left (String.◌∷◌ c s) = let rest = trim_left s in if is_dash c then rest else String.◌∷◌ c s

abbrev before_trimmed : Char → String → String
before_trimmed c String.[] = if is_dash c then "" else String.◌∷◌ c ""
before_trimmed c (String.◌∷◌ d t) = String.◌∷◌ c (String.◌∷◌ d t)

unfoldable pub trim_right : String → String
trim_right String.[] = ""
trim_right (String.◌∷◌ c s) = before_trimmed c (trim_right s)

-- SanitizeID
unfoldable pub sanitize_id : String → String
unfolding replace_gaps trim_left trim_right
sanitize_id id = trim_right (trim_left (replace_gaps false id))
