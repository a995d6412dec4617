-- ===== src/Operator/Resources/Resolver.antt =====
-- packages/shulker-operator/src/resources: resolving references (resourceref_resolver.rs) with
-- Maven's metadata (maven/resolver.rs), and the plugin of the agent
-- (packages/shulker-operator/src/reconcilers/agent.rs). The API server, the web and the XML parser
-- are functions of what they are asked.
pub mod Laws
pub mod Examples
use shulker.Prelude.{
  ℕ, String, Bool, true, false, ◌&&◌, List, [], ◌∷◌, Option, none, some, leb, nat_eq, if◌then◌else◌,
}
use shulker.Prelude.Text.{◌⧺◌, replace_char, ends_with}
use shulker.Outcome.{Outcome, ok, panicked, running, ◌>>=◌}
use shulker.Fallible.{and_then}
use shulker.Result.{Result, map_err}
use shulker.Kubernetes.{KubeError}
use shulker.Operator.Resources.Maven.{MavenMetadata, find_latest_snapshot_version_for_classifier}
use shulker.Operator.Resources.ResourceRef.{
  ResourceRefFromMavenSpec, ResourceRefFromSpec, ResourceRefSpec, ResolverError,
  failed_to_request_underlying, failed_to_request, failed_to_parse_metadata, ResourceRefError,
  failed_to_resolve_secret, failed_to_resolve_maven_metadata, invalid_spec, HttpCredentials, Secret,
  ResourceRef, url_ref, maven_artifact, UrlLibrary, from_kubernetes_secret, as_url,
}

-- The body of a response may still fail to arrive.
pub record Response : Type 0 where
  pub status : ℕ
  pub text : Result String String

pub record Surroundings (Bytes Url : Type 0) : Type 0 where
  pub urls : UrlLibrary Url
  pub from_utf8 : Bytes → Option String
  pub get_secret : String → String → Result KubeError (Secret Bytes)
  pub send : Option HttpCredentials → String → Result String Response
  pub parse_metadata : String → Result String (Option MavenMetadata)

pub record MavenResolver : Type 0 where
  pub repository_url : String
  pub credentials : Option HttpCredentials

module _ {Bytes Url : Type 0} (around : Surroundings Bytes Url) where
  parse_body : Result String String → Result ResolverError (Option MavenMetadata)
  parse_body (Result.err e) = Result.err (failed_to_request_underlying e)
  parse_body (Result.ok text) = map_err failed_to_parse_metadata (around.parse_metadata text)

  refuse : ℕ → Result String String → Result ResolverError (Option MavenMetadata)
  refuse status (Result.err e) = Result.err (failed_to_request_underlying e)
  refuse status (Result.ok text) = Result.err (failed_to_request status text)

  on_response : Result String Response → Result ResolverError (Option MavenMetadata)
  unfolding parse_body refuse
  on_response (Result.err e) = Result.err (failed_to_request_underlying e)
  on_response (Result.ok response) =
      if leb 200 response.status && leb response.status 299
      then parse_body response.text
      else if nat_eq response.status 404
      then Result.ok none
      else refuse response.status response.text

  pub try_resolve_metadata : MavenResolver → String → Result ResolverError (Option MavenMetadata)
  unfolding on_response
  try_resolve_metadata resolver url = on_response (around.send resolver.credentials url)

  try_resolve_artifact_metadata :
      MavenResolver → String → String → Result ResolverError (Option MavenMetadata)
  unfolding try_resolve_metadata
  try_resolve_artifact_metadata resolver group_id artifact_id = try_resolve_metadata resolver (
      resolver.repository_url
      ⧺ "/"
      ⧺ replace_char b'.' "/" group_id
      ⧺ "/"
      ⧺ artifact_id
      ⧺ "/maven-metadata.xml")

  pub try_resolve_version_metadata :
      MavenResolver → String → String → String → Result ResolverError (Option MavenMetadata)
  unfolding try_resolve_metadata
  try_resolve_version_metadata resolver group_id artifact_id version =
      try_resolve_metadata resolver (
        resolver.repository_url
        ⧺ "/"
        ⧺ replace_char b'.' "/" group_id
        ⧺ "/"
        ⧺ artifact_id
        ⧺ "/"
        ⧺ version
        ⧺ "/maven-metadata.xml")

  resolve_credentials :
      String → Option String → Outcome (Result ResourceRefError (Option HttpCredentials))
  resolve_credentials ns none = ok (Result.ok none)
  resolve_credentials ns (some secret_name) = elim (around.get_secret ns secret_name) [
    | Result.err e ↦ ok (Result.err (failed_to_resolve_secret e))
    | Result.ok secret ↦
        and_then (from_kubernetes_secret around.from_utf8 secret)
          (λ credentials. ok (Result.ok (some credentials)))
  ]

  abbrev latest_in : Option String → Option MavenMetadata → Option String
  latest_in classifier none = none
  latest_in classifier (some metadata) =
      find_latest_snapshot_version_for_classifier metadata "jar" classifier

  abbrev snapshot_in :
      Option String
      → Result ResolverError (Option MavenMetadata)
      → Result ResourceRefError (Option String)
  snapshot_in classifier (Result.ok metadata) = Result.ok (latest_in classifier metadata)
  snapshot_in classifier (Result.err e) = Result.err (failed_to_resolve_maven_metadata e)

  resolve_snapshot :
      ResourceRefFromMavenSpec → Option HttpCredentials → Result ResourceRefError (Option String)
  unfolding try_resolve_version_metadata
  resolve_snapshot maven_ref credentials =
      if ends_with "-SNAPSHOT" maven_ref.version
      then snapshot_in maven_ref.classifier (
          try_resolve_version_metadata
            (record { repository_url = maven_ref.repository_url; credentials = credentials })
            maven_ref.group_id maven_ref.artifact_id maven_ref.version)
      else Result.ok none

  resolve_maven : String → ResourceRefFromMavenSpec → Outcome (Result ResourceRefError ResourceRef)
  unfolding resolve_credentials resolve_snapshot
  resolve_maven ns maven_ref =
      and_then (resolve_credentials ns maven_ref.credentials_secret_name) (λ credentials.
        and_then (ok (resolve_snapshot maven_ref credentials)) (λ snapshot_version. ok (
          Result.ok (
            maven_artifact maven_ref.repository_url maven_ref.group_id maven_ref.artifact_id
              maven_ref.version snapshot_version maven_ref.classifier credentials))))

  resolve_from : String → Option ResourceRefFromSpec → Outcome (Result ResourceRefError ResourceRef)
  unfolding resolve_maven
  resolve_from ns none = ok (Result.err invalid_spec)
  resolve_from ns (some url_from) = elim (url_from.maven_ref) [
    | none ↦ ok (Result.err invalid_spec)
    | some maven_ref ↦ resolve_maven ns maven_ref
  ]

  pub resolve : String → ResourceRefSpec → Outcome (Result ResourceRefError ResourceRef)
  unfolding resolve_from
  resolve ns spec = elim (spec.url) [
    | some url ↦ ok (Result.ok (url_ref url))
    | none ↦ resolve_from ns spec.url_from
  ]

  -- `join_all`: every reference is resolved, in order, whatever the others give.
  join_all : String → List ResourceRefSpec → Outcome (List (Result ResourceRefError ResourceRef))
  unfolding resolve
  join_all ns [] = ok []
  join_all ns (spec ∷ specs) = do
    first ← resolve ns spec
    rest ← join_all ns specs
    ok (first ∷ rest)

  -- `try_fold`: it stops at the first error.
  collect_urls :
      List (Result ResourceRefError ResourceRef) → Outcome (Result ResourceRefError (List Url))
  collect_urls [] = ok (Result.ok [])
  collect_urls (Result.err e ∷ refs) = ok (Result.err e)
  collect_urls (Result.ok r ∷ refs) =
      and_then (as_url around.urls r)
        (λ url. and_then (collect_urls refs) (λ urls. ok (Result.ok (url ∷ urls))))

  pub resolve_all : String → List ResourceRefSpec → Outcome (Result ResourceRefError (List Url))
  unfolding join_all collect_urls
  resolve_all ns refs = do resolved ← join_all ns refs; collect_urls resolved

pub record AgentConfig : Type 0 where
  pub maven_repository : String
  pub version : String

pub data AgentSide : Type 0 where
  proxy server : AgentSide

abbrev pub get_artifact_name : AgentSide → String
get_artifact_name proxy = "shulker-proxy-agent"
get_artifact_name server = "shulker-server-agent"

abbrev agent_spec : AgentConfig → AgentSide → String → ResourceRefSpec
agent_spec agent_config side platform = record {
  url = none;
  url_from = some (record {
    maven_ref = some (record {
      repository_url = agent_config.maven_repository;
      group_id = "io.shulkermc";
      artifact_id = get_artifact_name side;
      version = agent_config.version;
      classifier = some platform;
      credentials_secret_name = none;
    });
  });
}

pub get_agent_plugin_url :
    {Bytes Url : Type 0}
    → Surroundings Bytes Url
    → AgentConfig
    → AgentSide
    → String
    → Outcome (Result ResourceRefError Url)
unfolding resolve
get_agent_plugin_url around agent_config side platform =
    and_then (resolve around "shulker-system" (agent_spec agent_config side platform))
      (as_url around.urls)
