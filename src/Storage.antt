-- ===== src/Storage.antt =====
-- src/storage.cpp: the data file and its backups (Persist), the operations on contacts (Contacts),
-- and what keeps the two tables of the book in step with its contacts.
pub mod Persist
pub mod Contacts
pub mod Keys
pub mod Invariant
pub mod Steps
pub mod Edits
pub mod Outcomes
pub mod Handlers
pub mod DataFile
pub mod Lookup
pub mod Import
pub mod Parallel
pub mod Export
pub mod Exported
