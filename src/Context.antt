-- ===== src/Context.antt =====
-- The runtime contexts of aruntime/context/types.py and aruntime/context/manager.py: what is kept of
-- a context, its snapshots, and what the manager asks of the JSON and hash libraries.
use agent_runtime.Prelude.{ℕ, Bool, Option, List, []}
use agent_runtime.Prelude.Dict.{Dict}
pub mod Data
pub mod Views
pub mod Compress
pub mod Recording
pub mod Manager
pub mod Building
pub mod Runs
pub mod Lists
pub mod Window
pub mod Stored
pub mod Snapshots
pub mod Versions
pub mod Tokens
pub mod Merging
pub mod Layers
pub mod Important
pub mod Limits
