-- ===== src/Operator/Resources/Maven.antt =====
-- packages/shulker-operator/src/resources/maven/mod.rs: choosing a snapshot from Maven's metadata.
-- `sort_by` is stable, and is modelled by insertion.
pub mod Laws
pub mod Examples
use mathlib.Core.Option
use shulker.Prelude.{
  ℕ, String, Bool, true, false, ◌&&◌, List, [], ◌∷◌, Option, none, some, find, leb, ◌==◌,
  if◌then◌else◌,
}

pub record SnapshotVersion : Type 0 where
  pub extension : String
  pub value : String
  pub updated : ℕ
  pub classifier : Option String

pub record MavenMetadata : Type 0 where
  pub snapshot_versions : Option (List SnapshotVersion)

abbrev option_eq : Option String → Option String → Bool
option_eq none none = true
option_eq none (some b) = false
option_eq (some a) none = false
option_eq (some a) (some b) = a == b

-- `sort_by(|a, b| b.updated.cmp(&a.updated))`: the newest first, equals in their order.
unfoldable pub insert_version : SnapshotVersion → List SnapshotVersion → List SnapshotVersion
insert_version v [] = v ∷ []
insert_version v (w ∷ versions) =
    if leb w.updated v.updated then v ∷ w ∷ versions else w ∷ insert_version v versions

unfoldable pub sort_versions : List SnapshotVersion → List SnapshotVersion
unfolding insert_version
sort_versions [] = []
sort_versions (v ∷ versions) = insert_version v (sort_versions versions)

abbrev pub is_wanted : String → Option String → SnapshotVersion → Bool
is_wanted extension classifier v = v.extension == extension && option_eq v.classifier classifier

unfoldable pub find_latest_snapshot_version_for_classifier :
    MavenMetadata → String → Option String → Option String
unfolding sort_versions
find_latest_snapshot_version_for_classifier metadata extension classifier =
    elim (metadata.snapshot_versions) [
      | none ↦ none
      | some versions ↦
          Option.map (λ (v : SnapshotVersion). v.value)
            (find (is_wanted extension classifier) (sort_versions versions))
    ]

pub find_latest_snapshot_version : MavenMetadata → String → Option String
unfolding find_latest_snapshot_version_for_classifier
find_latest_snapshot_version metadata extension =
    find_latest_snapshot_version_for_classifier metadata extension none
