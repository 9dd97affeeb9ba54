-- ===== src/Webhook.antt =====
-- The admission webhooks of api/v1beta1: nvidiacarbidecluster_webhook.go and
-- nvidiacarbidemachine_webhook.go.
pub mod Field
pub mod Cluster
pub mod Machine
