-- ===== src/Flows.antt =====
-- src/RegistrationQuickRegister.cpp and src/RegistrationUndo.cpp: the registration of an item from the
-- inventory, and the undo of a registration, each as one run of the calls that it makes.
pub mod Input
pub mod Register
pub mod Undo
pub mod Runtime
pub mod Refusal
pub mod Undone
pub mod FailedUndo
pub mod Registered
pub mod RoundTrip
