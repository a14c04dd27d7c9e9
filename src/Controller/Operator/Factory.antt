-- ===== src/Controller/Operator/Factory.antt =====
-- pkg/discovery/factory.go: the client of one resource in one namespace. Its calls of the Kubernetes
-- client library are no part of the model.
use saiki.Prelude.{Str}
use saiki.Errors.{Result, ok}
use saiki.Controller.Operator.Dynamics.{ApiResource, Discovery}

-- The struct `dynamicResourceClient`, but for the library's client; a group version by its text.
pub record Dynamic : Type 0 where
  pub group_version : Str
  pub resource : Str
  pub kind : Str
  pub namespace : Str

-- `ClientForGroupVersionResource`, which never fails
unfoldable pub client_for_group_version_resource : Str → ApiResource → Str → Result Dynamic
client_for_group_version_resource gv resource namespace = ok (record {
  group_version = gv;
  resource = resource.name;
  kind = resource.kind;
  namespace = namespace;
})

-- The factory, beside the parser of group versions.
abbrev pub dynamic_factory : (Str → Result Str) → Discovery Dynamic
dynamic_factory parse = record {
  parse_group_version = parse;
  client_for = client_for_group_version_resource;
  client_namespace = λ client. client.namespace;
}
