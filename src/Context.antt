-- ===== src/Context.antt =====
-- context.go: the metadata that the client adds to a context. `set_outgoing` is the common body of
-- the two functions.
use regatta_go.Prelude.{Option, none, some}
use regatta_go.Go.{Bytes, codes}
use regatta_go.Env.{Env}

abbrev pub metadata_require_leader_key : Bytes
metadata_require_leader_key = codes "has-leader"

abbrev pub metadata_client_api_version_key : Bytes
metadata_client_api_version_key = codes "client-api-version"

abbrev pub metadata_has_leader : Bytes
metadata_has_leader = codes "true"

abbrev pub version : Bytes
version = codes "unknown"

module _ (env : Env) where
  open env use {Ctx, Metadata, from_outgoing, pairs, copy, set, new_outgoing}

  set_outgoing : Ctx → Bytes → Bytes → Option Metadata → Ctx
  set_outgoing ctx key val none = new_outgoing ctx (pairs key val)
  set_outgoing ctx key val (some md) = new_outgoing ctx (set (copy md) key val)

  unfoldable pub with_require_leader : Ctx → Ctx
  unfolding set_outgoing
  with_require_leader ctx =
      set_outgoing ctx metadata_require_leader_key metadata_has_leader (from_outgoing ctx)

  unfoldable pub with_version : Ctx → Ctx
  unfolding set_outgoing
  with_version ctx = set_outgoing ctx metadata_client_api_version_key version (from_outgoing ctx)
