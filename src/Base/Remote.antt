-- ===== src/Base/Remote.antt =====
-- How a call of a remote service ends: it is carried out and answered, it fails before it is
-- carried out, or it is carried out and its answer is lost.
pub data Call : Type 0 where
  served refused lost : Call
