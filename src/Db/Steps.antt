-- ===== src/Db/Steps.antt =====
-- The steps of the clients (`DB.write`) and of the worker (`writeLog`, `writeSnapshot`).
pub mod Write
pub mod Batch
pub mod Log
pub mod InPlace
pub mod Tick
