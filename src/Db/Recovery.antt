-- ===== src/Db/Recovery.antt =====
-- `Open` on a directory whose log and snapshots were left by an earlier run: `load`, `replayLog` and
-- the first `writeSnapshot`.
pub mod Parts
pub mod Replay
pub mod Reopen
