-- ===== src/Lib.antt =====
-- Verification library of cluster-api-provider-nvidia-bmm, the Cluster API infrastructure provider
-- for NVIDIA bare metal: a cluster controller that provisions a network at the NICo service, a machine
-- controller, admission webhooks, scopes that wrap the service's client, and provider IDs.
--
-- Files and what they model:
--   Common       strings, numbers, Go maps (Common/Dict), a reconcile as a function on a state with
--                errors and nil dereferences as outcomes (Common/Exec), text functions (Common/Text)
--   ApiError     pkg/scope/errors.go: ClassifyAPIError, the predicates, RequeueAfterForAttempt
--   ProviderId   pkg/providerid/providerid.go: String and ParseProviderID
--   Api          api/v1beta1/ncxinfracluster_types.go and ncxinframachine_types.go
--   Cidr         net.ParseCIDR of the Go library, as parseCIDR and the webhook use it
--   Webhook      api/v1beta1/nvidiacarbidecluster_webhook.go and nvidiacarbidemachine_webhook.go
--   Sdk          the client interface of pkg/scope/cluster.go: requests, replies and calls; its wrapper
--                ncxInfraClient (Client); internal/controller/testutil/mock_client.go (Mock)
--   Kube         finalizers and conditions of controller-runtime and Cluster API, as parameters with laws
--   Cluster      pkg/scope/cluster.go (Scope, Entry) and
--                internal/controller/ncxinfracluster_controller.go: Vpc, Allocation, Subnets (with
--                prefixes and peerings), Nsg, Normal (reconcileNormal), Delete (reconcileDelete), Entry
--                (Reconcile). Keeps, Yields and Responds are the rules for what a step leaves
--                alone, what it achieves and when it reads no nil response; Reads has those for steps
--                that only read, and what a second run does; Returns has those for steps that always
--                return, and Maps those for the maps of the status. Life is about many runs.
--   Machine      pkg/scope/machine.go (Scope with Identity and Bootstrap, NewMachineScope in Entry) and
--                internal/controller/ncxinframachine_controller.go: Interfaces (buildInterfaces), Request
--                (applyOptionalInstanceFields), Update (buildUpdateRequest), Faults (health, faults and
--                status history), Create (createInstance, validateCapabilities, findExistingInstance),
--                Instance (reconcileInstance, handleInstanceReady), Normal (reconcileNormal), Delete
--                (reconcileDelete), Entry (Reconcile). Frame has the rules for what a step leaves
--                alone and Total for those that always return; Life is about many
--                runs, Phase is the view from outside.
--   Process      cmd/main.go behind the flags, SetupWithManager of both controllers,
--                api/v1beta1/groupversion_info.go
--   Tests        the theorems at concrete inputs, and runs
--
-- State. A controller step takes a world: the object that it mutates through pointers, the calls made
-- to the service so far, the events and the changed metrics. What a step wrote before an error stays
-- written. The service is a parameter, a function from the calls made so far and the next call to a
-- reply, so that a theorem without a hypothesis on it holds for every behaviour of the service. A nil
-- map is the empty list; the order in which `range` visits a map is the order of the list, over which
-- theorems quantify; Cluster/Delete/Reordered relates a status to one whose maps another run visits in
-- another order.
-- Error values are their texts, where an API error of the machine controller keeps its class; the text of
-- a UUID parse error is left out. A reply without an error and without a response is a panic where the
-- code reads its status code.
--
-- Machine integers: the shift and product of the backoff are taken modulo 2^64. All loops run over
-- lists of the object, so that no fuel is needed; only the decimal text of a number has fuel, twenty
-- digits, which hold every 64-bit value.
--
-- A client that is injected into a reconciler is part of what its run is given: NewClusterScope then takes
-- it and its organization, and reads no secret.
--
-- The machine controller holds three objects in its world, the NcxInfraMachine, its owner and the
-- NcxInfraCluster, of which the deferred patch writes the first only.
--
-- Not modelled: the parsing of the command line, generated deep copies, logging, latencies and the
-- declarations of the Prometheus metrics; PatchObject and Close of the scopes, which no controller calls;
-- and BatchCreateInstance of the mock client, which none calls either.
pub mod Common
pub mod ApiError
pub mod ProviderId
pub mod Api
pub mod Cidr
pub mod Webhook
pub mod Sdk
pub mod Kube
pub mod Cluster
pub mod Machine
pub mod Process
pub mod Tests
