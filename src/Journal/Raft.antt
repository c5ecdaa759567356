-- ===== src/Journal/Raft.antt =====
-- openraft's `client_write` as the services see it: an interface, with what its documentation says.
use pact.Base.{◌≡◌, ap, ◌⊎◌, inl, inr, String}
use pact.Types.{DateTime}
use pact.Journal.Command.{JournalCommand, JournalResponse}
use pact.Journal.State.{JournalState, Library}
use pact.Journal.Apply.{apply}

pub data WriteResult : Type 0 where
  response : JournalResponse → WriteResult
  failed : String → WriteResult

abbrev pub Written : Type 0
Written = JournalState × WriteResult

-- The command was applied and its response returned; or there is an error, and the command was
-- applied all the same or not at all. `now` is the clock while it is applied.
abbrev pub IsWrite : Library → DateTime → JournalCommand → JournalState → Written → Type 0
IsWrite lib now cmd s w =
    (w ≡ ((apply lib now cmd s).0, WriteResult.response (apply lib now cmd s).1))
    ⊎ ((text : String) × (w.1 ≡ WriteResult.failed text)
        × ((w.0 ≡ s) ⊎ (w.0 ≡ (apply lib now cmd s).0)))

pub record Raft (lib : Library) : Type 0 where
  pub client_write : DateTime → JournalCommand → JournalState → Written
  pub client_write-IsWrite :
      (now : DateTime) (cmd : JournalCommand) (s : JournalState)
      → IsWrite lib now cmd s (client_write now cmd s)

-- The cluster has a leader and a quorum: every write is answered.
abbrev pub IsAnswering : {lib : Library} → Raft lib → Type 0
IsAnswering raft =
    (now : DateTime) (cmd : JournalCommand) (s : JournalState)
    → (r : JournalResponse) × ((raft.client_write now cmd s).1 ≡ WriteResult.response r)

pub client_write-applies :
    {lib : Library} (raft : Raft lib)
    → IsAnswering raft
    → (now : DateTime) (cmd : JournalCommand) (s : JournalState)
    → (raft.client_write now cmd s).0 ≡ (apply lib now cmd s).0
client_write-applies raft up now cmd s = elim (raft.client_write-IsWrite now cmd s) [
  | inl e ↦ ap (λ w. w.0) e
  | inr (text, e, _) ↦ cc ((up now cmd s).1, e)
]
