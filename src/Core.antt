-- ===== src/Core.antt =====
-- core/: the structures of the out-of-order core.
pub mod Ring
pub mod Rob
pub mod Rename
pub mod FuUnit
pub mod IssueQueue
pub mod Predictor
pub mod StoreBuffer
pub mod SlotSet
pub mod Lsq
pub mod LoadSearch
pub mod LoadChoice
pub mod DataPorts
