-- ===== src/Controller/HelmValues.antt =====
-- internal/controller/helm_values.go: the pull secrets that Helm values name, and the kustomize
-- patches of the two releases.
use service_provider_kro.Base.{
  String, ◌<>◌, ◌==◌, Option, none, some, List, [], ◌∷◌, ◌⊎◌, inl, inr, if◌then◌else◌,
}
use service_provider_kro.Go.{Error, api, wrap}
use service_provider_kro.Kube.{Answer, ok, err}
use service_provider_kro.Flux.{PostRenderer}
use service_provider_kro.Env.{Env}
use service_provider_kro.Controller.Names.{
  mcp_kubeconfig_mount_path, mcp_kubeconfig_key, mcp_kubeconfig_secret_name,
}

-- `HelmValues`: the names of `ImagePullSecrets`
pub record HelmValues : Type 0 where
  pub image_pull_secrets : List String

abbrev parsed : Answer (List String) → Error ⊎ HelmValues
parsed (ok names) = inr (record { image_pull_secrets = names })
parsed (err e) = inl (wrap "failed to parse helm values: " (api e) "")

module _ (env : Env) where
  unfoldable pub extract_helm_values : Option String → Error ⊎ HelmValues
  extract_helm_values none = inr (record { image_pull_secrets = [] })
  extract_helm_values (some raw) =
      if raw == "" then inr (record { image_pull_secrets = [] }) else parsed (env.unmarshal raw)

abbrev pub kubeconfig_file_path : String
kubeconfig_file_path = mcp_kubeconfig_mount_path <> ("/" <> mcp_kubeconfig_key)

-- The format text of `kubeconfigPostRenderers`, with its three arguments.
kubeconfig_patch : String → String → String → String
kubeconfig_patch file_path mount_path secret_name =
    "apiVersion: apps/v1\nkind: Deployment\nmetadata:\n  name: kro\nspec:\n  template:\n    spec:\n"
    <> ("      containers:\n        - name: kro\n          env:\n            - name: KUBECONFIG\n"
        <> ("              value: "
            <> (file_path
                <> ("\n          volumeMounts:\n            - name: mcp-kubeconfig\n              mountPath: "
                    <> (mount_path
                        <> ("\n              readOnly: true\n      volumes:\n        - name: mcp-kubeconfig\n"
                            <> ("          secret:\n            secretName: " <> secret_name)))))))

unfoldable pub kubeconfig_post_renderers : List PostRenderer
unfolding kubeconfig_patch
kubeconfig_post_renderers =
    record {
      patches =
          record {
            patch =
                kubeconfig_patch kubeconfig_file_path mcp_kubeconfig_mount_path
                  mcp_kubeconfig_secret_name;
            target = record { group = "apps"; version = "v1"; kind = "Deployment" };
          }
          ∷ [];
    }
    ∷ []

unfoldable pub crd_only_post_renderers : List PostRenderer
crd_only_post_renderers =
    record {
      patches =
          record {
            patch =
                "$patch: delete\napiVersion: apps/v1\nkind: Deployment\nmetadata:\n  name: kro\n";
            target = record { group = "apps"; version = "v1"; kind = "Deployment" };
          }
          ∷ record {
            patch =
                "$patch: delete\napiVersion: v1\nkind: ServiceAccount\nmetadata:\n  name: kro\n";
            target = record { group = ""; version = "v1"; kind = "ServiceAccount" };
          }
          ∷ record {
            patch =
                "$patch: delete\napiVersion: rbac.authorization.k8s.io/v1\nkind: ClusterRole\nmetadata:\n  name: kro\n";
            target = record {
              group = "rbac.authorization.k8s.io";
              version = "v1";
              kind = "ClusterRole";
            };
          }
          ∷ record {
            patch =
                "$patch: delete\napiVersion: rbac.authorization.k8s.io/v1\nkind: ClusterRoleBinding\nmetadata:\n  name: kro\n";
            target = record {
              group = "rbac.authorization.k8s.io";
              version = "v1";
              kind = "ClusterRoleBinding";
            };
          }
          ∷ record {
            patch = "$patch: delete\napiVersion: v1\nkind: Service\nmetadata:\n  name: kro\n";
            target = record { group = ""; version = "v1"; kind = "Service" };
          }
          ∷ [];
    }
    ∷ []
