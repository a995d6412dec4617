-- ===== src/Operator/Resources/ResourceRef.antt =====
-- packages/shulker-operator/src/resources: references to downloads (resourceref.rs), credentials
-- (http_credentials.rs) and their errors (mod.rs), with the specifications of
-- packages/shulker-crds/src/resourceref.rs. The `url` library and the UTF-8 decoder are parameters.
use shulker.Prelude.{ℕ, String, Option, none, some}
use shulker.Prelude.Dict.{Dict, get}
use shulker.Prelude.Text.{◌⧺◌, replace_char}
use shulker.Outcome.{Outcome, ok, ◌>>=◌, unwrap}
use shulker.Result.{Result}
use shulker.Kubernetes.{KubeError}

pub record ResourceRefFromMavenSpec : Type 0 where
  pub repository_url : String
  pub group_id : String
  pub artifact_id : String
  pub version : String
  pub classifier : Option String
  pub credentials_secret_name : Option String

pub record ResourceRefFromSpec : Type 0 where
  pub maven_ref : Option ResourceRefFromMavenSpec

pub record ResourceRefSpec : Type 0 where
  pub url : Option String
  pub url_from : Option ResourceRefFromSpec

-- `ResolverError`, with the texts of the errors below.
pub data ResolverError : Type 0 where
  failed_to_request_underlying : String → ResolverError
  failed_to_request : ℕ → String → ResolverError
  failed_to_parse_metadata : String → ResolverError

pub data ResourceRefError : Type 0 where
  failed_to_resolve_secret : KubeError → ResourceRefError
  invalid_secret_spec : String → ResourceRefError
  invalid_url_spec : String → ResourceRefError
  failed_to_resolve_maven_metadata : ResolverError → ResourceRefError
  invalid_spec : ResourceRefError

pub record HttpCredentials : Type 0 where
  pub username : String
  pub password : String

pub record Secret (Bytes : Type 0) : Type 0 where
  pub data_ : Option (Dict Bytes)

pub data ResourceRef : Type 0 where
  url_ref : String → ResourceRef
  maven_artifact :
      (repository_url group_id artifact_id version : String)
      (snapshot_version classifier : Option String) (credentials : Option HttpCredentials)
      → ResourceRef

-- The `url` library: a setter is `none` for a URL that cannot have a user.
pub record UrlLibrary (Url : Type 0) : Type 0 where
  pub parse : String → Result String Url
  pub set_username : Url → String → Option Url
  pub set_password : Url → String → Option Url

-- The value of a key, decoded: a panic if it is not UTF-8.
abbrev decoded : {Bytes : Type 0} → (Bytes → Option String) → Option Bytes → Outcome (Option String)
decoded from_utf8 none = ok none
decoded from_utf8 (some bytes) = do text ← unwrap (from_utf8 bytes); ok (some text)

abbrev credentials_of : Option String → Option String → Result ResourceRefError HttpCredentials
credentials_of (some username) (some password) =
    Result.ok (record { username = username; password = password })
credentials_of (some username) none =
    Result.err (invalid_secret_spec "Missing username or password key in secret")
credentials_of none password =
    Result.err (invalid_secret_spec "Missing username or password key in secret")

pub from_kubernetes_secret :
    {Bytes : Type 0}
    → (Bytes → Option String)
    → Secret Bytes
    → Outcome (Result ResourceRefError HttpCredentials)
from_kubernetes_secret from_utf8 secret = elim (secret.data_) [
  | none ↦ ok (Result.err (invalid_secret_spec "Secret data is empty"))
  | some secret_data ↦ do
    username_opt ← decoded from_utf8 (get "username" secret_data)
    password_opt ← decoded from_utf8 (get "password" secret_data)
    ok (credentials_of username_opt password_opt)
]

abbrev file_name : String → String → Option String → String
file_name artifact_id file_version none = artifact_id ⧺ "-" ⧺ file_version ⧺ ".jar"
file_name artifact_id file_version (some classifier) =
    artifact_id ⧺ "-" ⧺ file_version ⧺ "-" ⧺ classifier ⧺ ".jar"

abbrev file_version_of : String → Option String → String
file_version_of version none = version
file_version_of version (some snapshot_version) = snapshot_version

abbrev pub artifact_url : String → String → String → String → Option String → Option String → String
artifact_url repository_url group_id artifact_id version snapshot_version classifier =
    repository_url
    ⧺ "/"
    ⧺ replace_char b'.' "/" group_id
    ⧺ "/"
    ⧺ artifact_id
    ⧺ "/"
    ⧺ version
    ⧺ "/"
    ⧺ file_name artifact_id (file_version_of version snapshot_version) classifier

module _ {Url : Type 0} (urls : UrlLibrary Url) where
  abbrev pub parse_url : String → Result ResourceRefError Url
  parse_url text = elim (urls.parse text) [
    | Result.ok url ↦ Result.ok url
    | Result.err e ↦ Result.err (invalid_url_spec e)
  ]

  with_credentials :
      Option HttpCredentials → Result ResourceRefError Url → Outcome (Result ResourceRefError Url)
  with_credentials none parsed = ok parsed
  with_credentials (some credentials) (Result.err e) = ok (Result.err e)
  with_credentials (some credentials) (Result.ok url) = do
    named ← unwrap (urls.set_username url credentials.username)
    full ← unwrap (urls.set_password named credentials.password)
    ok (Result.ok full)

  unfoldable pub as_url : ResourceRef → Outcome (Result ResourceRefError Url)
  unfolding with_credentials
  as_url (url_ref text) = ok (parse_url text)
  as_url
        (maven_artifact repository_url group_id artifact_id version snapshot_version classifier
          credentials) =
      with_credentials credentials (
        parse_url
          (artifact_url repository_url group_id artifact_id version snapshot_version classifier))
