-- ===== src/Crd/Sample.antt =====
-- Documents to try the validator and the sink on.
use kompox.Prelude.{List, [], ◌∷◌}
use kompox.Crd.Types.{workspace, provider, of_workspace, of_provider, Document}

abbrev pub workspace_doc : Document
workspace_doc = record {
  kind = workspace;
  fqn = "/ws/w";
  object = of_workspace (record {
    meta = record { name = "w"; annotations = [] };
    spec = record { settings = [] };
    ops_namespace = "";
  });
  path = "a.yml";
  index = 0;
}

abbrev pub provider_doc : Document
provider_doc = record {
  kind = provider;
  fqn = "/ws/w/prv/p";
  object = of_provider (record {
    meta = record { name = "p"; annotations = [] };
    spec = record { driver = "k3s"; settings = [] };
    ops_namespace = "";
  });
  path = "a.yml";
  index = 1;
}

-- The parent comes last.
abbrev pub two_docs : List Document
two_docs = provider_doc ∷ workspace_doc ∷ []
