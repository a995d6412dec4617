-- ===== src/Operator/Resources/Maven/Laws.antt =====
-- Which snapshot is chosen.
use mathlib.Core.Option
use shulker.Prelude.{
  ◌≤◌, ◌≡◌, refl, ◌⊎◌, inl, inr, String, Bool, true, false, List, [], ◌∷◌, Option, none, some, find,
  leb, leb→le, leb→lt, All, All-mono, Bool-cases, arith,
}
use shulker.Operator.Resources.Maven.{
  SnapshotVersion, MavenMetadata, insert_version, sort_versions, is_wanted,
  find_latest_snapshot_version_for_classifier,
}

abbrev pub Has : SnapshotVersion → List SnapshotVersion → Type 0
Has v [] = ⊥
Has v (w ∷ versions) = (v ≡ w) ⊎ Has v versions

-- Newest first.
abbrev IsSorted : List SnapshotVersion → Type 0
IsSorted [] = Unit
IsSorted (v ∷ versions) = All (λ w. w.updated ≤ v.updated) versions × IsSorted versions

-- Of the versions that pass the test, one that is as new as any other; none only if none passes.
abbrev pub IsNewest :
    (SnapshotVersion → Bool) → List SnapshotVersion → Option SnapshotVersion → Type 0
IsNewest p versions none = All (λ v. p v ≡ false) versions
IsNewest p versions (some v) =
    (p v ≡ true) × Has v versions × All (λ w. p w ≡ true → w.updated ≤ v.updated) versions

insert_version-All :
    (P : SnapshotVersion → Type 0) (v : SnapshotVersion) (versions : List SnapshotVersion)
    → P v
    → All P versions
    → All P (insert_version v versions)
unfolding insert_version
insert_version-All P v [] h all = (h, tt)
insert_version-All P v (w ∷ versions) h all = elim (Bool-cases (leb w.updated v.updated)) [
  | inl before ↦ rw before (h, all)
  | inr after ↦ rw after (all.0, insert_version-All P v versions h all.1)
]

insert_version-IsSorted :
    (v : SnapshotVersion) (versions : List SnapshotVersion)
    → IsSorted versions
    → IsSorted (insert_version v versions)
unfolding insert_version
insert_version-IsSorted v [] h = (tt, tt)
insert_version-IsSorted v (w ∷ versions) h = elim (Bool-cases (leb w.updated v.updated)) [
  | inl before ↦
      let newer = leb→le _ _ before in
      rw before ((newer, All-mono _ _ versions (λ u older. omega (arith, older, newer)) h.0), h)
  | inr after ↦ rw after (
    insert_version-All (λ u. u.updated ≤ w.updated) v versions (omega (arith, leb→lt _ _ after))
        h.0,
    insert_version-IsSorted v versions h.1,
  )
]

-- What holds of all sorted versions holds of all versions.
insert_version-All_inv :
    (P : SnapshotVersion → Type 0) (v : SnapshotVersion) (versions : List SnapshotVersion)
    → All P (insert_version v versions)
    → P v × All P versions
unfolding insert_version
insert_version-All_inv P v [] h = h
insert_version-All_inv P v (w ∷ versions) h = elim (Bool-cases (leb w.updated v.updated)) [
  | inl before ↦ rw before at h
  | inr after ↦
      let h' = rw after at h in
      let (now, rest) = insert_version-All_inv P v versions h'.1 in (now, (h'.0, rest))
]

insert_version-Has :
    (u v : SnapshotVersion) (versions : List SnapshotVersion)
    → Has u (insert_version v versions)
    → Has u (v ∷ versions)
unfolding insert_version
insert_version-Has u v [] h = h
insert_version-Has u v (w ∷ versions) h = elim (Bool-cases (leb w.updated v.updated)) [
  | inl before ↦ rw before at h
  | inr after ↦ elim (rw after at h) [
    | inl here ↦ inr (inl here)
    | inr later ↦ elim (insert_version-Has u v versions later) [
      | inl new ↦ inl new
      | inr old ↦ inr (inr old)
    ]
  ]
]

sort_versions-IsSorted : (versions : List SnapshotVersion) → IsSorted (sort_versions versions)
unfolding sort_versions
sort_versions-IsSorted [] = tt
sort_versions-IsSorted (v ∷ versions) =
    insert_version-IsSorted v (sort_versions versions) (sort_versions-IsSorted versions)

sort_versions-All_inv :
    (P : SnapshotVersion → Type 0) (versions : List SnapshotVersion)
    → All P (sort_versions versions)
    → All P versions
unfolding sort_versions
sort_versions-All_inv P [] h = tt
sort_versions-All_inv P (v ∷ versions) h =
    let (now, rest) = insert_version-All_inv P v (sort_versions versions) h in
    (now, sort_versions-All_inv P versions rest)

sort_versions-Has :
    (u : SnapshotVersion) (versions : List SnapshotVersion)
    → Has u (sort_versions versions)
    → Has u versions
unfolding sort_versions
sort_versions-Has u [] h = h
sort_versions-Has u (v ∷ versions) h = elim (insert_version-Has u v (sort_versions versions) h) [
  | inl new ↦ inl new
  | inr old ↦ inr (sort_versions-Has u versions old)
]

-- The first that passes in a sorted list is the latest of them.
find-IsNewest :
    (p : SnapshotVersion → Bool) (versions : List SnapshotVersion)
    → IsSorted versions
    → IsNewest p versions (find p versions)
find-IsNewest p [] h = tt
find-IsNewest p (v ∷ versions) h = elim (Bool-cases (p v)) [
  | inl passes ↦
      rw passes
        (passes, inl refl, ((λ _. omega arith), All-mono _ _ versions (λ w older _. older) h.0))
  | inr fails ↦ rw fails (later (find p versions) (find-IsNewest p versions h.1) fails)
]
  where
    later :
        (o : Option SnapshotVersion)
        → IsNewest p versions o
        → p v ≡ false
        → IsNewest p (v ∷ versions) o
    later none none_passes fails = (fails, none_passes)
    later (some u) (passes, has, newest) fails = (passes, inr has, (λ yes. cc (yes, fails), newest))

from_sorted :
    (p : SnapshotVersion → Bool) (versions : List SnapshotVersion) (o : Option SnapshotVersion)
    → IsNewest p (sort_versions versions) o
    → IsNewest p versions o
from_sorted p versions none h = sort_versions-All_inv _ versions h
from_sorted p versions (some v) (passes, has, newest) =
    (passes, sort_versions-Has v versions has, sort_versions-All_inv _ versions newest)

-- Among the snapshots with the extension and the classifier asked for, none or a given one, the
-- value found is that of one that was updated no earlier than any other; nothing is found only if
-- there is no such snapshot.
pub find_latest_snapshot_version_correct :
    (metadata : MavenMetadata) (versions : List SnapshotVersion) (extension : String)
    (classifier : Option String)
    → metadata.snapshot_versions ≡ some versions
    → (latest : Option SnapshotVersion) × (find_latest_snapshot_version_for_classifier metadata
          extension classifier
        ≡ Option.map (λ (v : SnapshotVersion). v.value) latest)
      × IsNewest (is_wanted extension classifier) versions latest
unfolding find_latest_snapshot_version_for_classifier
find_latest_snapshot_version_correct metadata versions extension classifier given = (
  find (is_wanted extension classifier) (sort_versions versions),
  rw given,
  from_sorted _ versions _
      (find-IsNewest _ (sort_versions versions) (sort_versions-IsSorted versions)),
)
