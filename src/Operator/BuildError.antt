-- ===== src/Operator/BuildError.antt =====
-- The errors of the operator's builders (`anyhow::Error`), by their source.
use shulker.Prelude.{String}
use shulker.KubeUtils.Builder.{BuilderReconcilerError}
use shulker.Operator.Resources.ResourceRef.{ResourceRefError}

pub data BuildError : Type 0 where
  message : String → BuildError
  unresolved : ResourceRefError → BuildError
  refused : BuilderReconcilerError → BuildError
