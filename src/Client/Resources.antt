-- ===== src/Client/Resources.antt =====
-- internal/client/gvr.go: the resources that the program addresses.
use acm_caas_poc.Prelude.{List, [], ◌∷◌}
use acm_caas_poc.Kube.Hub.{Gvr}

abbrev pub cluster_deployment : Gvr
cluster_deployment = record {
  group = "hive.openshift.io";
  version = "v1";
  resource = "clusterdeployments";
}

abbrev pub cluster_image_set : Gvr
cluster_image_set = record {
  group = "hive.openshift.io";
  version = "v1";
  resource = "clusterimagesets";
}

abbrev pub managed_cluster : Gvr
managed_cluster = record {
  group = "cluster.open-cluster-management.io";
  version = "v1";
  resource = "managedclusters";
}

abbrev pub managed_cluster_info : Gvr
managed_cluster_info = record {
  group = "internal.open-cluster-management.io";
  version = "v1beta1";
  resource = "managedclusterinfos";
}

abbrev pub manifest_work : Gvr
manifest_work = record {
  group = "work.open-cluster-management.io";
  version = "v1";
  resource = "manifestworks";
}

abbrev pub policy : Gvr
policy = record {
  group = "policy.open-cluster-management.io";
  version = "v1";
  resource = "policies";
}

abbrev pub placement_binding : Gvr
placement_binding = record {
  group = "policy.open-cluster-management.io";
  version = "v1";
  resource = "placementbindings";
}

abbrev pub placement_rule : Gvr
placement_rule = record {
  group = "apps.open-cluster-management.io";
  version = "v1";
  resource = "placementrules";
}

abbrev pub placement : Gvr
placement = record {
  group = "cluster.open-cluster-management.io";
  version = "v1beta1";
  resource = "placements";
}

abbrev pub klusterlet_addon_config : Gvr
klusterlet_addon_config = record {
  group = "agent.open-cluster-management.io";
  version = "v1";
  resource = "klusterletaddonconfigs";
}

abbrev pub namespace : Gvr
namespace = record { group = ""; version = "v1"; resource = "namespaces" }

abbrev pub secret : Gvr
secret = record { group = ""; version = "v1"; resource = "secrets" }

abbrev pub multi_cluster_observability : Gvr
multi_cluster_observability = record {
  group = "observability.open-cluster-management.io";
  version = "v1beta2";
  resource = "multiclusterobservabilities";
}

abbrev pub deployment : Gvr
deployment = record { group = "apps"; version = "v1"; resource = "deployments" }

abbrev pub service : Gvr
service = record { group = ""; version = "v1"; resource = "services" }

abbrev pub persistent_volume_claim : Gvr
persistent_volume_claim = record { group = ""; version = "v1"; resource = "persistentvolumeclaims" }

abbrev pub configuration_policy : Gvr
configuration_policy = record {
  group = "policy.open-cluster-management.io";
  version = "v1";
  resource = "configurationpolicies";
}

abbrev pub managed_cluster_set : Gvr
managed_cluster_set = record {
  group = "cluster.open-cluster-management.io";
  version = "v1beta2";
  resource = "managedclustersets";
}

abbrev pub managed_cluster_set_binding : Gvr
managed_cluster_set_binding = record {
  group = "cluster.open-cluster-management.io";
  version = "v1beta2";
  resource = "managedclustersetbindings";
}

abbrev pub managed_cluster_image_registry : Gvr
managed_cluster_image_registry = record {
  group = "imageregistry.open-cluster-management.io";
  version = "v1alpha1";
  resource = "managedclusterimageregistries";
}

abbrev pub machine_pool : Gvr
machine_pool = record { group = "hive.openshift.io"; version = "v1"; resource = "machinepools" }

abbrev pub config_map : Gvr
config_map = record { group = ""; version = "v1"; resource = "configmaps" }

abbrev pub cluster_curator : Gvr
cluster_curator = record {
  group = "cluster.open-cluster-management.io";
  version = "v1beta1";
  resource = "clustercurators";
}

abbrev pub operator_policy : Gvr
operator_policy = record {
  group = "policy.open-cluster-management.io";
  version = "v1beta1";
  resource = "operatorpolicies";
}

abbrev pub certificate_policy : Gvr
certificate_policy = record {
  group = "policy.open-cluster-management.io";
  version = "v1";
  resource = "certificatepolicies";
}

abbrev pub cluster_pool : Gvr
cluster_pool = record { group = "hive.openshift.io"; version = "v1"; resource = "clusterpools" }

abbrev pub cluster_claim : Gvr
cluster_claim = record { group = "hive.openshift.io"; version = "v1"; resource = "clusterclaims" }

abbrev pub manifest_work_replica_set : Gvr
manifest_work_replica_set = record {
  group = "work.open-cluster-management.io";
  version = "v1alpha1";
  resource = "manifestworkreplicasets";
}

abbrev pub managed_service_account : Gvr
managed_service_account = record {
  group = "authentication.open-cluster-management.io";
  version = "v1beta1";
  resource = "managedserviceaccounts";
}

abbrev pub managed_cluster_add_on : Gvr
managed_cluster_add_on = record {
  group = "addon.open-cluster-management.io";
  version = "v1alpha1";
  resource = "managedclusteraddons";
}

abbrev pub policy_automation : Gvr
policy_automation = record {
  group = "policy.open-cluster-management.io";
  version = "v1beta1";
  resource = "policyautomations";
}

abbrev pub application_set : Gvr
application_set = record {
  group = "argoproj.io";
  version = "v1alpha1";
  resource = "applicationsets";
}

abbrev pub application : Gvr
application = record { group = "argoproj.io"; version = "v1alpha1"; resource = "applications" }

abbrev pub placement_decision : Gvr
placement_decision = record {
  group = "cluster.open-cluster-management.io";
  version = "v1beta1";
  resource = "placementdecisions";
}

abbrev pub backup_schedule : Gvr
backup_schedule = record {
  group = "cluster.open-cluster-management.io";
  version = "v1beta1";
  resource = "backupschedules";
}

abbrev pub restore : Gvr
restore = record {
  group = "cluster.open-cluster-management.io";
  version = "v1beta1";
  resource = "restores";
}

abbrev pub submariner_config : Gvr
submariner_config = record {
  group = "submarineraddon.open-cluster-management.io";
  version = "v1alpha1";
  resource = "submarinerconfigs";
}

abbrev pub submariner_broker : Gvr
submariner_broker = record { group = "submariner.io"; version = "v1alpha1"; resource = "brokers" }

abbrev pub submariner_endpoint : Gvr
submariner_endpoint = record { group = "submariner.io"; version = "v1"; resource = "endpoints" }

abbrev pub hosted_cluster : Gvr
hosted_cluster = record {
  group = "hypershift.openshift.io";
  version = "v1beta1";
  resource = "hostedclusters";
}

abbrev pub node_pool : Gvr
node_pool = record {
  group = "hypershift.openshift.io";
  version = "v1beta1";
  resource = "nodepools";
}

abbrev pub capi_cluster : Gvr
capi_cluster = record { group = "cluster.x-k8s.io"; version = "v1beta2"; resource = "clusters" }

abbrev pub capi_machine_deployment : Gvr
capi_machine_deployment = record {
  group = "cluster.x-k8s.io";
  version = "v1beta2";
  resource = "machinedeployments";
}

abbrev pub aws_cluster : Gvr
aws_cluster = record {
  group = "infrastructure.cluster.x-k8s.io";
  version = "v1beta2";
  resource = "awsclusters";
}

abbrev pub aws_machine_template : Gvr
aws_machine_template = record {
  group = "infrastructure.cluster.x-k8s.io";
  version = "v1beta2";
  resource = "awsmachinetemplates";
}

abbrev pub kubeadm_control_plane : Gvr
kubeadm_control_plane = record {
  group = "controlplane.cluster.x-k8s.io";
  version = "v1beta2";
  resource = "kubeadmcontrolplanes";
}

abbrev pub kubeadm_config_template : Gvr
kubeadm_config_template = record {
  group = "bootstrap.cluster.x-k8s.io";
  version = "v1beta2";
  resource = "kubeadmconfigtemplates";
}

abbrev pub cluster_resource_set : Gvr
cluster_resource_set = record {
  group = "addons.cluster.x-k8s.io";
  version = "v1beta2";
  resource = "clusterresourcesets";
}

abbrev pub add_on_placement_score : Gvr
add_on_placement_score = record {
  group = "addon.open-cluster-management.io";
  version = "v1alpha1";
  resource = "addonplacementscores";
}

abbrev pub policy_set : Gvr
policy_set = record {
  group = "policy.open-cluster-management.io";
  version = "v1beta1";
  resource = "policysets";
}

abbrev pub event : Gvr
event = record { group = ""; version = "v1"; resource = "events" }

abbrev pub cluster_management_add_on : Gvr
cluster_management_add_on = record {
  group = "addon.open-cluster-management.io";
  version = "v1alpha1";
  resource = "clustermanagementaddons";
}

abbrev pub add_on_deployment_config : Gvr
add_on_deployment_config = record {
  group = "addon.open-cluster-management.io";
  version = "v1alpha1";
  resource = "addondeploymentconfigs";
}

abbrev pub object_bucket_claim : Gvr
object_bucket_claim = record {
  group = "objectbucket.io";
  version = "v1alpha1";
  resource = "objectbucketclaims";
}

abbrev pub virtual_machine : Gvr
virtual_machine = record { group = "kubevirt.io"; version = "v1"; resource = "virtualmachines" }

abbrev pub cluster_deployment_customization : Gvr
cluster_deployment_customization = record {
  group = "hive.openshift.io";
  version = "v1";
  resource = "clusterdeploymentcustomizations";
}

abbrev pub discovery_config : Gvr
discovery_config = record {
  group = "discovery.open-cluster-management.io";
  version = "v1";
  resource = "discoveryconfigs";
}

abbrev pub discovered_cluster : Gvr
discovered_cluster = record {
  group = "discovery.open-cluster-management.io";
  version = "v1";
  resource = "discoveredclusters";
}

abbrev pub image_config : Gvr
image_config = record { group = "config.openshift.io"; version = "v1"; resource = "images" }

abbrev pub route : Gvr
route = record { group = "route.openshift.io"; version = "v1"; resource = "routes" }

abbrev pub custom_resource_definition : Gvr
custom_resource_definition = record {
  group = "apiextensions.k8s.io";
  version = "v1";
  resource = "customresourcedefinitions";
}

abbrev pub stateful_set : Gvr
stateful_set = record { group = "apps"; version = "v1"; resource = "statefulsets" }

abbrev pub multi_cluster_hub : Gvr
multi_cluster_hub = record {
  group = "operator.open-cluster-management.io";
  version = "v1";
  resource = "multiclusterhubs";
}

abbrev pub multi_cluster_engine : Gvr
multi_cluster_engine = record {
  group = "multicluster.openshift.io";
  version = "v1";
  resource = "multiclusterengines";
}

abbrev pub pod : Gvr
pod = record { group = ""; version = "v1"; resource = "pods" }

abbrev pub service_export : Gvr
service_export = record {
  group = "multicluster.x-k8s.io";
  version = "v1alpha1";
  resource = "serviceexports";
}

abbrev pub cluster_service_version : Gvr
cluster_service_version = record {
  group = "operators.coreos.com";
  version = "v1alpha1";
  resource = "clusterserviceversions";
}

-- All of them, in the order of the file.
abbrev pub resources : List Gvr
resources =
    cluster_deployment ∷ cluster_image_set ∷ managed_cluster ∷ managed_cluster_info ∷ manifest_work
    ∷ policy ∷ placement_binding ∷ placement_rule ∷ placement ∷ klusterlet_addon_config ∷ namespace
    ∷ secret ∷ multi_cluster_observability ∷ deployment ∷ service ∷ persistent_volume_claim
    ∷ configuration_policy ∷ managed_cluster_set ∷ managed_cluster_set_binding
    ∷ managed_cluster_image_registry ∷ machine_pool ∷ config_map ∷ cluster_curator ∷ operator_policy
    ∷ certificate_policy ∷ cluster_pool ∷ cluster_claim ∷ manifest_work_replica_set
    ∷ managed_service_account ∷ managed_cluster_add_on ∷ policy_automation ∷ application_set
    ∷ application ∷ placement_decision ∷ backup_schedule ∷ restore ∷ submariner_config
    ∷ submariner_broker ∷ submariner_endpoint ∷ hosted_cluster ∷ node_pool ∷ capi_cluster
    ∷ capi_machine_deployment ∷ aws_cluster ∷ aws_machine_template ∷ kubeadm_control_plane
    ∷ kubeadm_config_template ∷ cluster_resource_set ∷ add_on_placement_score ∷ policy_set ∷ event
    ∷ cluster_management_add_on ∷ add_on_deployment_config ∷ object_bucket_claim ∷ virtual_machine
    ∷ cluster_deployment_customization ∷ discovery_config ∷ discovered_cluster ∷ image_config
    ∷ route ∷ custom_resource_definition ∷ stateful_set ∷ multi_cluster_hub ∷ multi_cluster_engine
    ∷ pod ∷ service_export ∷ cluster_service_version ∷ []
