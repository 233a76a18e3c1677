-- ===== src/Machine/FrontPanel/Loop.antt =====
-- `FrontPanel.Run` (machine/frontpanel.go): how it can end.
use retronet.Base.{ℕ, ◌≤◌, ◌≡◌, Bool, true, false, not}
use retronet.Machine.FrontPanel.{FrontPanel, PanelStopReason, is_some}
use retronet.Machine.FrontPanel.Running.{PanelRunResult}

-- A reason for the end of a run that is no error.
abbrev pub has_reason : PanelStopReason → Bool
has_reason PanelStopReason.no_reason = false
has_reason _ = true

abbrev pub is_limit : PanelStopReason → Bool
is_limit PanelStopReason.stopped_by_limit = true
is_limit _ = false

-- A result of a run of at most `limit` steps: it has a reason or an error, not both, and the reason of
-- the limit only behind `limit` steps.
pub record Ended (limit : ℕ) (r : PanelRunResult) : Type 0 where
  pub bounded : r.steps ≤ limit
  pub reason_or_error : has_reason r.reason ≡ not (is_some r.error)
  pub at_limit : is_limit r.reason ≡ true → r.steps ≡ limit
