-- ===== src/Agent/Tables.antt =====
-- The states of an agent, and its two transition tables (core/acb.py and core/lifecycle.py).
use agent_runtime.Prelude.{ℕ, Bool, true, false, List, [], ◌∷◌, ◌==◌, if◌then◌else◌}

pub data AgentStatus : Type 0 where
  created ready running waiting failed completed suspended isolated recovering lost killed :
      AgentStatus

abbrev pub index : AgentStatus → ℕ
index created = 0
index ready = 1
index running = 2
index waiting = 3
index failed = 4
index completed = 5
index suspended = 6
index isolated = 7
index recovering = 8
index lost = 9
index killed = 10

-- `s in statuses`
abbrev pub contains : AgentStatus → List AgentStatus → Bool
contains s [] = false
contains s (t ∷ ts) = if index s == index t then true else contains s ts

-- AgentControlBlock._ALLOWED_TRANSITIONS
unfoldable pub allowed_block : AgentStatus → List AgentStatus
allowed_block created = ready ∷ failed ∷ []
allowed_block ready = running ∷ suspended ∷ lost ∷ killed ∷ []
allowed_block running = waiting ∷ completed ∷ failed ∷ isolated ∷ lost ∷ killed ∷ []
allowed_block waiting = ready ∷ failed ∷ lost ∷ killed ∷ []
allowed_block failed = recovering ∷ isolated ∷ killed ∷ []
allowed_block lost = recovering ∷ isolated ∷ killed ∷ []
allowed_block recovering = ready ∷ killed ∷ []
allowed_block isolated = ready ∷ killed ∷ []
allowed_block suspended = ready ∷ killed ∷ []
allowed_block completed = []
allowed_block killed = []

-- lifecycle.ALLOWED_TRANSITIONS
unfoldable pub allowed_transitions : AgentStatus → List AgentStatus
allowed_transitions created = ready ∷ failed ∷ []
allowed_transitions ready = running ∷ suspended ∷ lost ∷ killed ∷ []
allowed_transitions running = waiting ∷ completed ∷ failed ∷ isolated ∷ lost ∷ killed ∷ []
allowed_transitions waiting = ready ∷ failed ∷ lost ∷ killed ∷ []
allowed_transitions failed = recovering ∷ isolated ∷ killed ∷ []
allowed_transitions lost = recovering ∷ isolated ∷ killed ∷ []
allowed_transitions recovering = ready ∷ killed ∷ []
allowed_transitions completed = []
allowed_transitions suspended = ready ∷ killed ∷ []
allowed_transitions isolated = ready ∷ killed ∷ []
allowed_transitions killed = []
