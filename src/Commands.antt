-- ===== src/Commands.antt =====
-- chatterc/commands/commands.go: the command graph, matching and completion.
pub mod Node
pub mod Matching
pub mod Disambiguate
pub mod Parser
pub mod Params
pub mod Merge
pub mod Leaves
pub mod Address
pub mod Completion
