-- ===== src/Engine/Scaling.antt =====
-- internal/controller/engine/autoscaling.go and engine.go, checkAutoScaling: a call to an outside
-- service when the queue is long, or when many agents are idle. Times are seconds.
pub mod Cooldown
use encodeswarmr.Prelude.{
  ℕ, suc, ◌+◌, ◌-◌, ℤ, pos, ltbℤ, ◌+ℤ◌, String, Bool, true, false, not, ◌&&◌, ◌||◌, List, [], ◌∷◌,
  Option, none, some, ltb, leb, ◌==◌, if◌then◌else◌, count_if,
}
use encodeswarmr.Db.Types.{Agent, AgentStatus}

pub record AutoScalingConfig : Type 0 where
  pub enabled : Bool
  pub webhook_url : String
  pub scale_up_threshold : ℤ
  pub scale_down_threshold : ℤ
  pub cooldown_seconds : ℤ

-- `none` is the zero time, which is further back than any cooldown.
pub record AutoScalingHook : Type 0 where
  pub last_scale_up : Option ℕ
  pub last_scale_down : Option ℕ

pub data ScalePayload : Type 0 where
  scale_up : ℕ → ℕ → ScalePayload
  scale_down : ℕ → ScalePayload

-- now.Sub(last) >= cooldown
abbrev pub cooled : ℤ → ℕ → Option ℕ → Bool
cooled cooldown now none = true
cooled cooldown now (some last) = not (ltbℤ (pos now) (pos last +ℤ cooldown))

abbrev pub is_off : AutoScalingConfig → Bool
is_off cfg = not cfg.enabled || (elim cfg.webhook_url [ String.[] ↦ true | String.◌∷◌ c s ↦ false ])

-- The payload that is sent, if any.
unfoldable pub check :
    AutoScalingConfig → ℕ → ℕ → ℕ → ℕ → AutoScalingHook → Option ScalePayload × AutoScalingHook
check cfg now pending active idle h =
    if is_off cfg
    then (none, h)
    else if ltbℤ cfg.scale_up_threshold (pos pending) && idle == 0
    then (if cooled cfg.cooldown_seconds now h.last_scale_up
        then (some (ScalePayload.scale_up pending active), record h { last_scale_up = some now })
        else (none, h))
    else if ltbℤ cfg.scale_down_threshold (pos idle)
        && cooled cfg.cooldown_seconds now h.last_scale_down
    then (some (ScalePayload.scale_down idle), record h { last_scale_down = some now })
    else (none, h)

abbrev pub is_idle : Agent → Bool
is_idle a = elim a.status [ AgentStatus.idle ↦ true | _ ↦ false ]

-- checkAutoScaling, for the agents of the table and the number of pending tasks. The code counts
-- as active the idle agents and those of status "running", which is none of an agent's statuses.
unfoldable pub check_auto_scaling :
    AutoScalingConfig → ℕ → ℕ → List Agent → AutoScalingHook → Option ScalePayload × AutoScalingHook
unfolding check
check_auto_scaling cfg now pending agents h =
    check cfg now pending (count_if is_idle agents) (count_if is_idle agents) h
