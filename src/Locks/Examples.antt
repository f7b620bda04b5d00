-- ===== src/Locks/Examples.antt =====
-- The witnesses of the properties of the operation locks.
use production_support_agent.Prelude.{nat_eq, string_eq}
use production_support_agent.Locks.{OperationLock, new_lock}

abbrev backup : OperationLock
backup = new_lock "t" "maintenance" "backup" "w1" 60 0

abbrev purge : OperationLock
purge = new_lock "t" "maintenance" "purge" "w2" 60 5
