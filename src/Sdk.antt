-- ===== src/Sdk.antt =====
-- The REST client as the program sees it, NcxInfraClientInterface of pkg/scope/cluster.go: one
-- constructor of `Call` for each method that a controller calls. What the service answers is a
-- parameter that may depend on all calls before, so a theorem over every `Cloud` covers every
-- behaviour of the service. The organisation, the same in all calls, is left out.
mod Network
mod Instances
pub use Network.*
pub use Instances.*
pub mod Wire
pub mod Client
pub mod Mock
pub mod Answers
