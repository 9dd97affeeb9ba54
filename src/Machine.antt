-- ===== src/Machine.antt =====
-- The NcxInfraMachine controller, internal/controller/ncxinframachine_controller.go, over the
-- machine scope of pkg/scope/machine.go.
pub mod Scope
pub mod Interfaces
pub mod Request
pub mod Update
pub mod Faults
pub mod Create
pub mod Instance
pub mod Normal
pub mod Delete
pub mod Entry
pub mod Frame
pub mod Life
pub mod Phase
pub mod Total
