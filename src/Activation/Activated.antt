-- ===== src/Activation/Activated.antt =====
-- What `activate` and `rollback` have done when they return.
use n4x_core.Graph.Records
