-- ===== src/Autoscaler/Instance.antt =====
-- `State`, `HandleScalingEvent` and `ConsumeScaleResult` of pkg/abstractions/common/instance.go.
use beta.Base.{
  ℕ, suc, ◌+◌, Bool, ◌&&◌, ◌||◌, not, List, [], ◌∷◌, Result, ok, err, leb, ltb, ◌==◌, if◌then◌else◌,
}
use beta.Base.Int.{ℤ, pos, negsuc, ltb_ℤ, ◌-ℤ◌}
use beta.Types.{ContainerState, ContainerStatus, pending, running, stopping, other_container_status}
use beta.Autoscaler.Scale.{InstanceState, AutoscalerResult}

-- The loop over the active containers; `failed` counts what `GetFailedContainersByStubId` listed.
abbrev pub count_status : ContainerStatus → InstanceState → InstanceState
count_status running s = record s { running_containers = s.running_containers + 1 }
count_status pending s = record s { pending_containers = s.pending_containers + 1 }
count_status stopping s = record s { stopping_containers = s.stopping_containers + 1 }
count_status (other_container_status t) s = s

abbrev pub count_containers : List ContainerStatus → InstanceState → InstanceState
count_containers [] s = s
count_containers (c ∷ cs) s = count_containers cs (count_status c s)

abbrev pub statuses : List ContainerState → List ContainerStatus
statuses [] = []
statuses (c ∷ cs) = c.status ∷ statuses cs

unfoldable pub instance_state :
    Result (Unit {0}) (List ContainerState) → Result (Unit {0}) ℕ → Result (Unit {0}) InstanceState
instance_state (err e) failed = err e
instance_state (ok containers) (err e) = err e
instance_state (ok containers) (ok failed) = ok (
    count_containers (statuses containers) (record {
      running_containers = 0;
      pending_containers = 0;
      stopping_containers = 0;
      failed_containers = failed;
    }))

-- What a scaling event does: the callbacks with their argument, or the end of the instance.
pub data Action : Type 0 where
  cancel_instance keep : Action
  start_containers stop_containers : ℕ → Action

pub data StubEvent : Type 0 where
  no_event warning degraded : StubEvent

pub record Handled : Type 0 where
  pub action : Action
  pub stub_event : StubEvent

-- `handleStubEvents`: which event is emitted.
unfoldable pub handle_stub_events : ℕ → ℕ → StubEvent
handle_stub_events threshold failed =
    if leb threshold failed then degraded else if ltb 0 failed then warning else no_event

abbrev pub by_delta : ℤ → Action
by_delta (pos n) = if n == 0 then keep else start_containers n
by_delta (negsuc n) = stop_containers (suc n)

abbrev pub target : ℕ → Bool → ℤ → InstanceState → ℤ
target threshold active desired s =
    if leb threshold s.failed_containers || not active then pos 0 else desired

abbrev pub is_zero : ℤ → Bool
is_zero z = not (ltb_ℤ z (pos 0)) && not (ltb_ℤ (pos 0) z)

abbrev pub scale : ℕ → ℤ → InstanceState → Handled
scale threshold desired s =
    if is_zero desired
      && s.pending_containers == 0
      && s.running_containers == 0
      && s.stopping_containers == 0
    then record { action = cancel_instance; stub_event = no_event }
    else record {
      action = by_delta (desired -ℤ pos (s.running_containers + s.pending_containers));
      stub_event =
          if ltb 0 s.failed_containers
          then handle_stub_events threshold s.failed_containers
          else no_event;
    }

-- `lock` and `state` are what the lock and `State` answered.
unfoldable pub handle_scaling_event :
    ℕ
    → Bool
    → Result (Unit {0}) (Unit {0})
    → Result (Unit {0}) InstanceState
    → ℤ
    → Result (Unit {0}) Handled
unfolding handle_stub_events
handle_scaling_event threshold active (err e) state desired = err e
handle_scaling_event threshold active (ok u) (err e) desired = err e
handle_scaling_event threshold active (ok u) (ok s) desired =
    ok (scale threshold (target threshold active desired s) s)

-- The value that is sent to the scale channel; `no_minimum` is `IsServe()` or the type "taskqueue".
unfoldable pub consume_scale_result : Bool → ℕ → AutoscalerResult → ℤ
consume_scale_result no_minimum min_containers r =
    let least = if no_minimum then pos 0 else pos min_containers in
    if ltb_ℤ r.desired_containers least then least else r.desired_containers
