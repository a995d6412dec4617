-- ===== src/Lib.antt =====
-- Shulker: a Kubernetes operator for Minecraft clusters, and its matchmaking addon.
--
-- The program's parts and the files that model them:
--
--   packages/shulker-addon-matchmaking, the matchmaking addon, in Matchmaking.antt and its children.
--   A controller (Matchmaking/Reconciler) keeps a registry of the MatchmakingQueue resources, which
--   turns them into profiles with limits (Matchmaking/Queues, with the registry of matchmaking
--   functions in Matchmaking/Registry). The director (Matchmaking/Director) fetches matches for each
--   registered queue, finds each a game server and assigns its tickets. The matches are made by the
--   matchmaking service (Matchmaking/Runner), which queries the tickets and backfills of a pool and
--   gives them to the batch function (Matchmaking/Batch), with the constructors of matches in
--   Matchmaking/Utils. Limits, free slots and game servers travel in the extensions of Open Match's
--   messages (Matchmaking/Extensions).
--
--   packages/shulker-operator, the operator, in Operator.antt and its children. Its reconcilers
--   (src/reconcilers) bring the resources of clusters, servers and fleets up to date. What each builder
--   gives is in Operator/Cluster (minecraft_cluster and redis_ref.rs), Operator/MinecraftServer
--   (minecraft_server), Operator/ServerFleet (minecraft_server_fleet) and Operator/ProxyFleet
--   (proxy_fleet), with what the builders of pods share in Operator/Pods; the calls that the
--   reconcilers make (the mod.rs of each, cluster_ref.rs) are in Operator/Reconcile, where a call is
--   one of `reconcile_builder`, of which KubeUtils/Builder has the inside. Operator/Allocation is the
--   allocation of game servers that the director asks for (src/api/sdk_grpc.rs), with Operator/Summon
--   for the servers made by hand (src/summon.rs), and
--   Operator/Resources the resolution of references to downloads (src/resources: ResourceRef for the
--   references and credentials, Maven for the choice of a snapshot, Resolver for the resolvers and the
--   agent's plugin of src/reconcilers/agent.rs).
--
--   packages/shulker-kube-utils, what the controllers share, in KubeUtils.antt: bringing a resource to
--   the state that its builder asks for (src/reconcilers/builder.rs, in KubeUtils/Builder), writing a
--   status (KubeUtils/Status), and the lease that makes one replica active (src/lease.rs, in
--   KubeUtils/LeaseData for its data and KubeUtils/Lease, its task in KubeUtils/Lease/Hold).
--
--   packages/shulker-crds, the resources: the conditions of their status (src/condition.rs, in
--   Crds/Condition) and the specifications (src/schemas.rs in Crds/Schemas, src/v1alpha1 in a module
--   for each). packages/google-agones-crds, the resources of Agones, is in Agones.antt.
--
--   packages/google-open-match-sdk, whose generated messages are records in OpenMatch.antt with the
--   fields the addon reads or writes. What protobuf encodes is kept abstract: the encodings of the
--   extensions are a `Codec`, whose laws say that an encoded value decodes to itself. Kubernetes.antt
--   has the objects of the Kubernetes client in the same way, and Kubernetes/Pod.antt the pods.
--
-- State and effects. Fallible code returns `Result` (Result.antt); code that can panic or loop returns
-- `Outcome` (Outcome.antt), where `running` stands for a loop that has used up its fuel; code that
-- does both returns `Outcome (Result E A)` (Fallible.antt). Remote
-- services and clocks are functions from the calls made so far, newest first, to their reply, so that
-- any history of replies is covered; a function returns its calls with its result. A task that waits
-- for events is a function of the sequence of events.
--
-- Fuel. The loop of `create_full_matches` takes one round for each match, so that more fuel than
-- tickets is enough when the maximum of players is not 0; no fuel is when it is 0. The loop of
-- `try_acquire` takes one round for each reading of the lease, as long as another replica renews it,
-- and two rounds are enough once the holder is gone.
--
-- Numbers. A 32-bit integer is its bit pattern, with the wrap-around of `as` written out
-- (Prelude/Int32.antt). Times are numbers of seconds, and the limits of the calendar are left out.
-- Hash maps are association lists (Prelude/Dict.antt). Random identifiers are a function from a
-- counter or from the calls before.
--
-- Not modelled: logging and metrics, the command lines, the start of the tasks and of the controllers,
-- and serialisation: what serde, the scripts in assets and the default values of fields give is an
-- argument or a given value. The plugins in Kotlin are a program of their own.
pub mod Prelude
pub mod Outcome
pub mod Result
pub mod Agones
pub mod Crds
pub mod Fallible
pub mod KubeUtils
pub mod Kubernetes
pub mod Matchmaking
pub mod OpenMatch
pub mod Operator
