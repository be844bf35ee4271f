-- ===== src/ShareBundle/Reduce/Errors.antt =====
-- The protocols on bundles when a queue has too few sharings, or the degree is not the threshold.
use linux_copy.ShareBase.{ShareBase}
use linux_copy.ShareBundle.{ShareBundle}
