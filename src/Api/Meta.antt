-- ===== src/Api/Meta.antt =====
-- What the controllers use of the Kubernetes and Cluster API types: metadata and conditions.
use cluster_api_provider_nvi.Common.{ℕ, String, Bool, List}
use cluster_api_provider_nvi.Common.Dict.{Dict}

-- `deleted` is `!DeletionTimestamp.IsZero()`.
pub record ObjectMeta : Type 0 where
  pub name : String
  pub namespace : String
  pub finalizers : List String
  pub annotations : Dict
  pub deleted : Bool

-- `metav1.Condition` as the code fills it in; `status` is true for `ConditionTrue`.
pub record Condition : Type 0 where
  pub kind : String
  pub status : Bool
  pub reason : String
  pub message : String

-- `clusterv1.APIEndpoint`
pub record ApiEndpoint : Type 0 where
  pub host : String
  pub port : ℕ

-- `ctrl.Result`, its delay in seconds.
pub record ReconcileResult : Type 0 where
  pub requeue : Bool
  pub requeue_after : ℕ
