-- ===== src/Buildrepo.antt =====
-- internal/buildrepo/buildrepo.go: the build repository. What the bucket lists and what reading a
-- manifest gives (`none`: it cannot be read or parsed) are arguments; a time is a number.
pub mod Latest
use Prim.Native.Char.{Char, code}
use mathlib.Core.List.{foldl}
use distributed_test_runner.Base.{
  ℕ, suc, ◌+◌, ◌-◌, String, Bool, true, false, not, ◌&&◌, ◌||◌, ◌==◌, Option, none, some, List, [],
  ◌∷◌, ◌++◌, if◌then◌else◌, ltb, nat_eq,
}
use distributed_test_runner.Base.Dict.{lookup, insert}
use distributed_test_runner.Base.Text.{concat}
use distributed_test_runner.Base.Sort.{sort}
use distributed_test_runner.Base.Scan.{has_suffix, cut_prefix}
use distributed_test_runner.Base.Result.{Result, ok, err, ◌>>=◌}
use distributed_test_runner.Model.Suite.{BuildArtifact}

pub record Manifest : Type 0 where
  pub id : String
  pub product : String
  pub version : String
  pub ref : String
  pub built : ℕ
  pub url : String
  pub sha256 : String
  pub size : ℕ
  pub unpack : String

pub record Payload : Type 0 where
  pub url : String
  pub size : ℕ
  pub manifest : Option Manifest

-- s3.Object
pub record Object : Type 0 where
  pub key : String
  pub size : ℕ

unfoldable pub is_archive : String → Bool
unfolding has_suffix
is_archive key =
    has_suffix key ".tar.gz"
    || (has_suffix key ".tgz" || (has_suffix key ".tar" || has_suffix key ".zip"))

-- strings.TrimSuffix(s, ".json")
unfoldable without_json : String → String
unfolding cut_prefix
without_json String.[] = ""
without_json (String.◌∷◌ c s) =
    let rest = without_json s in if String.◌∷◌ c s == ".json" then "" else String.◌∷◌ c rest

-- path.Base of a key that does not end in a slash: what stands after its last one.
unfoldable base_from : String → String → String
base_from found String.[] = found
base_from found (String.◌∷◌ c s) = base_from (if nat_eq (code c) 47 then s else found) s

abbrev base_name : String → String
base_name key = base_from key key

abbrev object_url : String → String → String
object_url bucket key = concat ("s3://" ∷ bucket ∷ "/" ∷ key ∷ [])

-- The url and the id of a manifest that leaves them out.
unfoldable pub completed : String → String → Manifest → Manifest
unfolding without_json base_from
completed bucket key m = record m {
  url =
      if m.url == ""
      then concat ("s3://" ∷ bucket ∷ "/" ∷ without_json key ∷ ".tar.gz" ∷ [])
      else m.url;
  id = if m.id == "" then without_json (base_name key) else m.id;
}

-- The manifests by their url, and the archives, as the loop meets them.
pub record Found : Type 0 where
  pub manifests : List (String × Manifest)
  pub archives : List Payload

unfoldable pub find_object : String → (String → Option Manifest) → Found → Object → Found
unfolding has_suffix is_archive completed insert
find_object bucket read f o =
    if has_suffix o.key ".json"
    then elim (read o.key) [
      | none ↦ f
      | some m ↦ record f {
        manifests = insert (completed bucket o.key m).url (completed bucket o.key m) f.manifests;
      }
    ]
    else if is_archive o.key
    then record f {
      archives =
          f.archives
          ++ record { url = object_url bucket o.key; size = o.size; manifest = none } ∷ [];
    }
    else f

-- The size of a manifest that has none is that of its archive.
abbrev sized : ℕ → Option Manifest → Option Manifest
sized size none = none
sized size (some m) = some (if nat_eq m.size 0 then record m { size = size } else m)

unfoldable pub with_manifests : List (String × Manifest) → List Payload → List Payload
unfolding lookup
with_manifests ms [] = []
with_manifests ms (a ∷ archives) =
    record a { manifest = sized a.size (lookup a.url ms) } ∷ with_manifests ms archives

-- The newest manifest first, an archive without one last.
unfoldable pub newer : Payload → Payload → Bool
newer p q = elim p.manifest [
  | none ↦ false
  | some m ↦ elim q.manifest [ none ↦ true | some n ↦ ltb n.built m.built ]
]

-- The archives as they were listed, with their manifests.
unfoldable pub unsorted : String → (String → Option Manifest) → List Object → List Payload
unfolding find_object with_manifests
unsorted bucket read objs =
    let found = foldl (find_object bucket read) (record { manifests = []; archives = [] }) objs in
    with_manifests found.manifests found.archives

unfoldable pub payloads_of : String → (String → Option Manifest) → List Object → List Payload
unfolding unsorted newer sort
payloads_of bucket read objs = sort newer (unsorted bucket read objs)

-- The listing that is kept, and when it was made, in nanoseconds.
pub record Repo : Type 0 where
  pub cached : Option (List Payload)
  pub cached_at : ℕ

abbrev listed :
    String
    → (String → Option Manifest)
    → ℕ
    → Result String (List Object)
    → Repo
    → Result String (List Payload) × Repo
listed bucket read now (err why) r = (err (concat ("build repository: " ∷ why ∷ [])), r)
listed bucket read now (ok objs) r = (
  ok (payloads_of bucket read objs),
  record { cached = some (payloads_of bucket read objs); cached_at = now },
)

-- List
unfoldable pub list_builds :
    String
    → (String → Option Manifest)
    → ℕ
    → Result String (List Object)
    → Repo
    → Result String (List Payload) × Repo
unfolding payloads_of
list_builds bucket read now objs r = elim r.cached [
  | none ↦ listed bucket read now objs r
  | some kept ↦
      if ltb (now - r.cached_at) 15000000000 then (ok kept, r) else listed bucket read now objs r
]

-- The first payload whose manifest passes a test.
unfoldable pub first_manifest : (Payload → Manifest → Bool) → List Payload → Option Manifest
first_manifest test [] = none
first_manifest test (p ∷ ps) =
    let later = first_manifest test ps in
    elim p.manifest [ none ↦ later | some m ↦ if test p m then some m else later ]

-- What the entry leaves empty is filled in from the manifest.
unfoldable pub complete : BuildArtifact → Manifest → BuildArtifact
complete a m = record a {
  id = m.id;
  product = m.product;
  version = m.version;
  ref = m.ref;
  url = if a.url == "" then m.url else a.url;
  sha256 = if a.sha256 == "" then m.sha256 else a.sha256;
  unpack = if a.unpack == "" then m.unpack else a.unpack;
}

abbrev pub wanted_product : BuildArtifact → String
wanted_product a = if a.product == "" then a.name else a.product

abbrev pub completed_by : String → BuildArtifact → Option Manifest → Result String BuildArtifact
completed_by why a none = err why
completed_by why a (some m) = ok (complete a m)

-- The choice of Resolve among the payloads.
unfoldable pub resolve_among : List Payload → BuildArtifact → Result String BuildArtifact
unfolding first_manifest complete
resolve_among payloads a =
    if a.id == "latest"
    then completed_by
        (concat (
          "build \""
          ∷ a.name
          ∷ "\": no build of product \""
          ∷ wanted_product a
          ∷ "\" in the repository"
          ∷ []))
        a (first_manifest (λ p m. m.product == wanted_product a) payloads)
    else if not (a.id == "")
    then completed_by
        (concat ("build \"" ∷ a.name ∷ "\": no build \"" ∷ a.id ∷ "\" in the repository" ∷ [])) a
        (first_manifest (λ p m. m.id == a.id) payloads)
    else elim (first_manifest (λ p m. p.url == a.url) payloads) [
      | none ↦ ok a
      | some m ↦ ok (complete a m)
    ]

-- Resolve, where `payloads` is the answer of List.
unfoldable pub resolve : Result String (List Payload) → BuildArtifact → Result String BuildArtifact
unfolding resolve_among
resolve payloads a =
    if a.id == "" && a.url == ""
    then err (concat ("build \"" ∷ a.name ∷ "\" needs an id or a url" ∷ []))
    else payloads >>= (λ ps. resolve_among ps a)
