-- ===== src/Common.antt =====
-- libs/common: the containers the other packages use.
pub mod BitArray
