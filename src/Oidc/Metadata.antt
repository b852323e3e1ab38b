-- ===== src/Oidc/Metadata.antt =====
-- src/oidc/metadata.rs, and what src/oidc/provider.rs makes of it: the introspection endpoint that the
-- provider advertises. `additional_metadata` is the accessor of `openidconnect`; a URL is its text.
use authn_kit.Prelude.{Option}
use authn_kit.Text.{Text}
use authn_kit.Oidc.Provider.{ProviderState}

pub record IntrospectionMetadata : Type 0 where
  pub introspection_endpoint : Option Text

module _ {Metadata : Type 0} (additional_metadata : Metadata → IntrospectionMetadata) where
  unfoldable pub discovered_introspection_endpoint : Metadata → Option Text
  discovered_introspection_endpoint metadata = (additional_metadata metadata).introspection_endpoint

  -- `ProviderState::introspection_endpoint`
  unfoldable pub introspection_endpoint :
      {Client : Type 0} → ProviderState Metadata Client → Option Text
  unfolding discovered_introspection_endpoint
  introspection_endpoint state = discovered_introspection_endpoint state.metadata
