-- ===== src/Operator/ServerFleet/Examples.antt =====
-- A fleet of servers of Minestom without their archive.
use shulker.Prelude.{none, ◌≡◌, refl}
use shulker.Outcome.{ok}
use shulker.Result.{Result}
use shulker.Kubernetes.{Object}
use shulker.KubeUtils.Builder.{BuilderReconcilerError}
use shulker.Agones.{FleetSpec}
use shulker.Operator.BuildError.{refused}
use shulker.Operator.Cluster.Redis.{managed_ref, from_cluster}
use shulker.Operator.MinecraftServer.GameServer as GameServer
use shulker.Operator.ServerFleet.{build, fake_minecraft_server, server_context}
use shulker.Operator.ServerFleet.Laws.{IsBare, fleet_unvalidated}
use shulker.Operator.Fixtures.{minestom_fleet, proxy_context, offline, same_text}

bare : IsBare (fake_minecraft_server minestom_fleet)
unfolding fake_minecraft_server
bare = record {
  on_minestom = refl;
  no_jar = refl;
  no_plugins = refl;
  no_patches = refl;
  no_world = refl;
}

fleet_unvalidated_example :
    (e : BuilderReconcilerError) × (built : Object FleetSpec) × (GameServer.build offline same_text
        (fake_minecraft_server minestom_fleet)
        "my-fleet"
        (server_context minestom_fleet proxy_context none)
      ≡ ok (Result.err (refused e)))
    × (build offline same_text minestom_fleet "my-fleet" none proxy_context none
        ≡ ok (Result.ok built))
unfolding from_cluster
fleet_unvalidated_example =
    fleet_unvalidated offline same_text minestom_fleet "my-fleet" none proxy_context none "default"
      (managed_ref proxy_context.cluster) bare refl refl
