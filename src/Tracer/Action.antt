-- ===== src/Tracer/Action.antt =====
-- tracer/TraceAction.h.
pub data TraceAction : Type 0 where
  continue kill : TraceAction

-- `std::max` of two actions.
unfoldable pub max : TraceAction → TraceAction → TraceAction
max continue a = a
max kill a = kill
