-- ===== src/Runtime/Perform/Published.antt =====
-- A sink of business events that fails does not fail the write of a record.
use greentic_sorx.Prelude.{◌≡◌, refl, inl, inr}
use greentic_sorx.Prelude.Results.{ok, map_ok, Result-cases}
use greentic_sorx.Prelude.Actions.{◌>>=◌}
use greentic_sorx.Store.Types.{ProviderNamespace}
use greentic_sorx.Runtime.Types.{EndpointDefinition, EndpointInvocation}
use greentic_sorx.Runtime.Hooks.{
  Effect, SorxRuntime, SorStoreProvider, ProviderBinding, attempt, publish_business_event,
  publish_entity_event,
}
use greentic_sorx.Runtime.Perform.{perform_create, create_op, created_result}

module _ {W : Type 0} (rt : SorxRuntime W) where
  published_ok :
      (published : Effect W (Unit {0})) (endpoint : EndpointDefinition)
      (invocation : EndpointInvocation) (w : W)
      → (publish_business_event rt published endpoint invocation w).0 ≡ ok tt
  unfolding publish_business_event ◌>>=◌ attempt
  published_ok published endpoint invocation w = elim (Result-cases (published w).0) [
    | inl (u, e) ↦ rw e refl
    | inr (x, e) ↦ rw e refl
  ]

  -- Whether a record is created, and what is answered, is settled by the store alone: a create has the
  -- outcome of the store's create, whatever becomes of the business event and of the audit of its failure.
  pub perform_create_ok :
      (provider : SorStoreProvider W) (endpoint : EndpointDefinition)
      (invocation : EndpointInvocation) (namespace : ProviderNamespace) (binding : ProviderBinding)
      (w : W)
      → (perform_create rt provider endpoint invocation namespace binding w).0
        ≡ map_ok
            (created_result rt endpoint invocation)
            (provider.create (create_op rt endpoint invocation namespace binding) w).0
  unfolding perform_create publish_entity_event ◌>>=◌
  perform_create_ok provider endpoint invocation namespace binding w =
      elim (Result-cases
        (provider.create (create_op rt endpoint invocation namespace binding) w).0) [
          | inl (stored, e) ↦ rw (e, published_ok _ endpoint invocation _) refl
          | inr (x, e) ↦ rw e refl
        ]
