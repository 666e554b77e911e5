-- ===== src/Crd/Convert/Sample.antt =====
-- Documents as the loader makes them, one of each kind, and the library functions.
use kompox.Prelude.{String, ◌==◌, if◌then◌else◌, none, some, List, [], ◌∷◌, false}
use kompox.Labels.Sample.{sample}
use kompox.Crd.Types.{
  Value, Members, workspace, provider, cluster, app, box, of_workspace, of_provider, of_cluster,
  of_app, of_box, Document, ObjectMeta, annotation_doc_path, AppNetworkPolicySpec,
}
use kompox.Crd.Fqn.{annotation_id}
use kompox.Crd.Convert.{Library}

abbrev pub library : Library
library = record {
  labels = sample;
  abs = λ s. some s;
  dir = λ s. "/srv";
  quantity_bytes = λ s. if s == "1Ki" then some (some 1024) else none;
}

abbrev meta_of : String → String → ObjectMeta
meta_of name id = record {
  name = name;
  annotations = (annotation_id, id) ∷ (annotation_doc_path, "/srv/app.yml") ∷ [];
}

abbrev pub web_policy : AppNetworkPolicySpec
web_policy = record {
  ingress_rules =
      (record {
        sources =
            (record {
              namespace_selector = some (record {
                match_labels = ("team", "web") ∷ [];
                match_expressions =
                    (record { key = "tier"; operator = "In"; values = "front" ∷ [] }) ∷ [];
              });
            })
            ∷ [];
        ports = (record { protocol = ""; port = 443 }) ∷ [];
      })
      ∷ [];
}

abbrev pub docs : List Document
docs =
    (record {
      kind = workspace;
      fqn = "/ws/w";
      object = of_workspace (record {
        meta = meta_of "w" "/ws/w";
        spec = record { settings = [] };
        ops_namespace = "";
      });
      path = "/srv/app.yml";
      index = 1;
    })
    ∷ (record {
      kind = provider;
      fqn = "/ws/w/prv/p";
      object = of_provider (record {
        meta = meta_of "p" "/ws/w/prv/p";
        spec = record { driver = "k3s"; settings = [] };
        ops_namespace = "";
      });
      path = "/srv/app.yml";
      index = 2;
    })
    ∷ (record {
      kind = cluster;
      fqn = "/ws/w/prv/p/cls/c";
      object = of_cluster (record {
        meta = meta_of "c" "/ws/w/prv/p/cls/c";
        spec = record {
          existing = false;
          ingress = none;
          protection = some (record { provisioning = "readOnly"; installation = "" });
          settings = [];
        };
        ops_namespace = "";
      });
      path = "/srv/app.yml";
      index = 3;
    })
    ∷ (record {
      kind = app;
      fqn = "/ws/w/prv/p/cls/c/app/a";
      object = of_app (record {
        meta = meta_of "a" "/ws/w/prv/p/cls/c/app/a";
        spec = record {
          compose = "";
          ingress = none;
          volumes =
              (record { name = "data"; size = Value.str "1Ki"; type = ""; options = Members.end })
              ∷ [];
          deployment =
              some
                (record { pool = "main"; pools = []; zone = ""; zones = "1" ∷ []; selectors = [] });
          network_policy = some web_policy;
          resources = [];
          settings = [];
        };
        ops_namespace = "";
      });
      path = "/srv/app.yml";
      index = 4;
    })
    ∷ (record {
      kind = box;
      fqn = "/ws/w/prv/p/cls/c/app/a/box/b";
      object = of_box (record {
        meta = meta_of "b" "/ws/w/prv/p/cls/c/app/a/box/b";
        spec = record {
          component = "b";
          image = "nginx";
          command = [];
          args = [];
          ingress = false;
          network_policy = none;
        };
      });
      path = "/srv/app.yml";
      index = 5;
    })
    ∷ []
