-- ===== src/Filesystem/Reconciler/Exactness.antt =====
-- src/filesystem/reconciler.cpp: for which arguments Decide gives which action.
