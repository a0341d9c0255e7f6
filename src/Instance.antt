-- ===== src/Instance.antt =====
-- common/includes/__state__.h: the state that an instance keeps of itself, and the test of
-- CHECK_STATE_AVAILABLE.
use react_fs.Prelude.{Bool, true, false}

-- `__state_enum`
pub data InstanceState : Type 0 where
  unknown initialized available disposed exception : InstanceState

abbrev pub is_available : InstanceState → Bool
is_available available = true
is_available _ = false
