-- ===== src/Operator/Resources/Resolver/Examples.antt =====
-- Resolving concrete references, and witnesses. An address is its text here.
use shulker.Prelude.{String, List, [], ◌∷◌, none, some}
use shulker.Outcome.{ok}
use shulker.Result.{Result}
use shulker.Kubernetes.{KubeError}
use shulker.Operator.Resources.Maven.{SnapshotVersion, MavenMetadata}
use shulker.Operator.Resources.ResourceRef.{ResourceRefSpec}
use shulker.Operator.Resources.Resolver.{Surroundings, AgentConfig}

abbrev latest_build : SnapshotVersion
latest_build = record {
  extension = "jar";
  value = "0.3.0-7";
  updated = 20231127141358;
  classifier = some "velocity";
}

abbrev metadata : MavenMetadata
metadata = record { snapshot_versions = some (latest_build ∷ []) }

abbrev internet : Surroundings String String
internet = record {
  urls = record {
    parse = λ text. Result.ok text;
    set_username = λ url name. some url;
    set_password = λ url password. some url;
  };
  from_utf8 = λ bytes. some bytes;
  get_secret = λ ns name. Result.err (KubeError.other "unreachable");
  send = λ credentials url. Result.ok (record { status = 200; text = Result.ok "<metadata/>" });
  parse_metadata = λ text. Result.ok (some metadata);
}

abbrev two_urls : List ResourceRefSpec
two_urls =
    record { url = some "https://a"; url_from = none }
    ∷ record { url = some "https://b"; url_from = none }
    ∷ []

abbrev snapshot_config : AgentConfig
snapshot_config = record { maven_repository = "https://maven"; version = "0.3.0-SNAPSHOT" }
