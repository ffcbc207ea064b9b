-- ===== src/Deployment/Operations.antt =====
-- crates/greentic-sorx-core/src/deployment.rs: the public methods that write the registry, and the
-- registries that they can reach from `DeploymentRegistry::default()`.
pub mod Invariant
pub mod Linked
pub mod Deliveries
pub mod Visible
use greentic_sorx.Prelude.{[], ◌∷◌, List, ℕ, String, Bool, Option}
use greentic_sorx.Json.{Value}
use greentic_sorx.Deployment.Types.{
  CreateDeploymentRequest, RollbackAliasRequest, DeploymentRegistry, default_registry,
}
use greentic_sorx.Deployment.Create.{create_deployment}
use greentic_sorx.Deployment.Registry.{
  validate_deployment, activate_private, record_validation_report, promote_private, promote_public,
  promote_alias, rollback_alias, retire_old, retire, set_alias, record_webhook_delivery,
}

pub data Operation : Type 0 where
  create : CreateDeploymentRequest → Operation
  validate activate : String → Operation
  report : Value → Operation
  to_private to_public : String → String → Option String → Operation
  to_alias : String → String → Bool → String → Option String → Operation
  rollback : RollbackAliasRequest → Operation
  retire_but : String → String → ℕ → Operation
  retire_one : String → Operation
  link : (tenant sor alias id : String) → Operation
  deliver : String → Operation

-- The registry after a call, whether the call succeeds or fails.
unfoldable pub perform : Operation → DeploymentRegistry → DeploymentRegistry
perform (create request) r = (create_deployment request r).1
perform (validate id) r = (validate_deployment id r).1
perform (activate id) r = (activate_private id r).1
perform (report value) r = (record_validation_report value r).1
perform (to_private id actor source) r = (promote_private id actor source r).1
perform (to_public id actor source) r = (promote_public id actor source r).1
perform (to_alias id alias public actor source) r = (promote_alias id alias public actor source r).1
perform (rollback request) r = (rollback_alias request r).1
perform (retire_but tenant sor keep) r = (retire_old tenant sor keep r).1
perform (retire_one id) r = (retire id r).1
perform (link tenant sor alias id) r = (set_alias tenant sor alias id r).1
perform (deliver id) r = (record_webhook_delivery id r).1

pub data Reachable : DeploymentRegistry → Type 0 where
  start : Reachable default_registry
  after : {r : DeploymentRegistry} (op : Operation) → Reachable r → Reachable (perform op r)

-- A sequence of calls, the first one first.
abbrev pub perform_all : List Operation → DeploymentRegistry → DeploymentRegistry
perform_all [] r = r
perform_all (op ∷ ops) r = perform_all ops (perform op r)
