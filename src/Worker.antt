-- ===== src/Worker.antt =====
-- src/worker.py: `State` is what a worker holds while it works on one task, `Stream` the engine's
-- streams, `Execute` the handlers; the others prove what a round keeps, and how it
-- ends where its updates time out.
pub mod State
pub mod Stream
pub mod Execute
pub mod Connection
pub mod Beside
mod Frame
pub mod Others
pub mod Isolated
pub mod Kept
pub mod Recorded
mod Streaming
pub mod Invariant
pub mod Rounds
pub mod Lock
pub mod Blocked
pub mod Turn
pub mod Holding
pub mod Attempts
pub mod Spares
pub mod Stranded
pub mod Floor
pub mod Exclusive
