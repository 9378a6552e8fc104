-- ===== src/Worker.antt =====
-- WorkerEngine of executor/workers/engine.py, with the enumerations of executor/persistence/models.py
-- and the payload of executor/task_queue/models.py.
pub mod Tables
pub mod Engine
