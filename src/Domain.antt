-- ===== src/Domain.antt =====
-- crates/openim-domain/src/lib.rs: the summary of a synchronisation, and the services below it.
pub mod Sync
pub mod Equality
pub mod Relation
pub mod File
pub mod Message
pub mod Conversation
pub mod User
pub mod Group
use openim_sdk_core_rust.Base.{ℕ, ◌+◌}
use openim_sdk_core_rust.Sync.Diff.{SyncState, SyncAction, state}

-- `usize` counters
pub record DomainSyncSummary : Type 0 where
  pub inserted : ℕ
  pub updated : ℕ
  pub deleted : ℕ
  pub unchanged : ℕ

abbrev pub empty_summary : DomainSyncSummary
empty_summary = record { inserted = 0; updated = 0; deleted = 0; unchanged = 0 }

abbrev pub total : DomainSyncSummary → ℕ
total s = s.inserted + s.updated + s.deleted + s.unchanged

-- `DomainSyncSummary::record`
abbrev pub count_state : SyncState → DomainSyncSummary → DomainSyncSummary
count_state SyncState.unchanged s = record s { unchanged = s.unchanged + 1 }
count_state SyncState.insert s = record s { inserted = s.inserted + 1 }
count_state SyncState.update s = record s { updated = s.updated + 1 }
count_state SyncState.delete s = record s { deleted = s.deleted + 1 }

unfoldable pub summarize_action :
    {T : Type 0} → DomainSyncSummary → SyncAction T → DomainSyncSummary
summarize_action summary action = count_state (state action) summary
