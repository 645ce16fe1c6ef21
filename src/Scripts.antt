-- ===== src/Scripts.antt =====
-- The programs of scripts/.
pub mod MintDevToken
