-- ===== src/Team.antt =====
-- src/xkomp/parallel.cc: how a parallel region gets its team, and what xkomp.h keeps for it.
pub mod Places
pub mod Region
