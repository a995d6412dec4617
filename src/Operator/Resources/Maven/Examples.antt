-- ===== src/Operator/Resources/Maven/Examples.antt =====
-- The metadata of the tests of maven/mod.rs, and a witness.
use mathlib.Core.Option
use shulker.Prelude.{ℕ, ◌≡◌, refl, String, List, [], ◌∷◌, Option, none, some}
use shulker.Operator.Resources.Maven.{
  SnapshotVersion, MavenMetadata, sort_versions, is_wanted, find_latest_snapshot_version,
  find_latest_snapshot_version_for_classifier,
}
use shulker.Operator.Resources.Maven.Laws.{IsNewest, find_latest_snapshot_version_correct}

abbrev version : String → ℕ → Option String → SnapshotVersion
version value updated classifier = record {
  extension = "jar";
  value = value;
  updated = updated;
  classifier = classifier;
}

abbrev versions : List SnapshotVersion
versions =
    version "0.3.0-1" 20231127141358 (some "javadoc")
    ∷ version "0.3.0-2" 20231127141358 (some "sources")
    ∷ version "0.3.0-3" 20231127141358 none
    ∷ version "0.3.0-4" 20231128000000 none
    ∷ []

abbrev metadata : MavenMetadata
metadata = record { snapshot_versions = some versions }

finds_latest : find_latest_snapshot_version metadata "jar" ≡ some "0.3.0-4"
unfolding find_latest_snapshot_version sort_versions
finds_latest = refl

finds_classified :
    find_latest_snapshot_version_for_classifier metadata "jar" (some "sources") ≡ some "0.3.0-2"
unfolding find_latest_snapshot_version_for_classifier sort_versions
finds_classified = refl

find_latest_snapshot_version_correct_example :
    (latest : Option SnapshotVersion) × (find_latest_snapshot_version_for_classifier metadata "jar"
        none
      ≡ Option.map (λ (v : SnapshotVersion). v.value) latest)
    × IsNewest (is_wanted "jar" none) versions latest
find_latest_snapshot_version_correct_example =
    find_latest_snapshot_version_correct metadata versions "jar" none refl
