-- ===== src/Journal/Service/Reading.antt =====
-- crates/pact-journal/src/service.rs: what was written is read back, and what a listing holds.
use Prim.Native.String.{◌++◌}
use pact.Base.{ℕ, ◌≡◌, ◌⊎◌, String, none, some, List, ℕ_eq}
use pact.Base.BTree
use pact.Types.{ConfigEntry}
use pact.Journal.Command.{JournalResponse, Reason}
use pact.Journal.State.{JournalState}
use pact.Journal.Handlers
use pact.Journal.Raft.{Raft}
use pact.Journal.Wire.{Status, answer, error}
use pact.Journal.Convert.{config_entry_to_proto}
use pact.Journal.Service.{Appended, entry_update, get_entry}

-- The entry `e` was appended at the counter's position, is read back there, and is announced.
pub record IsAppended (to_vec : ConfigEntry → List ℕ) (e : ConfigEntry) (s : JournalState)
    (r : Appended) : Type 0 where
  pub reply : r.1 ≡ answer s.next_sequence
  pub read :
      get_entry s.next_sequence r.0
      ≡ answer (config_entry_to_proto (record e { sequence = s.next_sequence }))
  pub update :
      r.2 ≡ entry_update to_vec s.next_sequence (some (record e { sequence = s.next_sequence }))

-- An error leaves the journal alone and announces nothing, but for a failure of Raft.
pub record IsFailed (s : JournalState) (r : Appended) : Type 0 where
  pub status : Status
  pub reply : r.1 ≡ error status
  pub update : r.2 ≡ none
  pub state :
      (r.0 ≡ s) ⊎ ((text : String) × (status ≡ Status.internal ("Raft write failed: " ++ text)))

-- The state machine refuses the entry and keeps its state, or takes it.
IsHandled : ConfigEntry → JournalState → Handlers.Outcome → Type 0
IsHandled e s o =
    ((reason : Reason) × (o ≡ (s, JournalResponse.validation_error reason)))
    ⊎ ((o.1 ≡ JournalResponse.entry_appended s.next_sequence)
        × (o.0.entries
            ≡ BTree.insert s.next_sequence (record e { sequence = s.next_sequence }) s.entries))
