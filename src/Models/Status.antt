-- ===== src/Models/Status.antt =====
-- The enumerations of crates/niuma-core/src/models.rs. A derived `PartialEq` compares discriminants.
use niu_ma_notifier.Prelude.{ℕ, ◌≡◌, ◌↔◌, true, arith, PartialEq, nat_beq}

pub data RuntimeStateStatus : Type 0 where
  idle running waiting_approval waiting_input completed error stale : RuntimeStateStatus

abbrev pub status_discriminant : RuntimeStateStatus → ℕ
status_discriminant RuntimeStateStatus.idle = 0
status_discriminant RuntimeStateStatus.running = 1
status_discriminant RuntimeStateStatus.waiting_approval = 2
status_discriminant RuntimeStateStatus.waiting_input = 3
status_discriminant RuntimeStateStatus.completed = 4
status_discriminant RuntimeStateStatus.error = 5
status_discriminant RuntimeStateStatus.stale = 6

pub status_beq_iff :
    (a b : RuntimeStateStatus)
    → (nat_beq (status_discriminant a) (status_discriminant b) ≡ true) ↔ (a ≡ b)
status_beq_iff a b = ground arith

instance abbrev pub status_eq : PartialEq RuntimeStateStatus
status_eq = record {
  is_equal = λ a b. nat_beq (status_discriminant a) (status_discriminant b);
  decides = status_beq_iff;
}

pub data ApprovalStatus : Type 0 where
  pending allowed denied returned_to_codex returned_to_tool resolved_in_tool : ApprovalStatus

abbrev pub approval_status_discriminant : ApprovalStatus → ℕ
approval_status_discriminant ApprovalStatus.pending = 0
approval_status_discriminant ApprovalStatus.allowed = 1
approval_status_discriminant ApprovalStatus.denied = 2
approval_status_discriminant ApprovalStatus.returned_to_codex = 3
approval_status_discriminant ApprovalStatus.returned_to_tool = 4
approval_status_discriminant ApprovalStatus.resolved_in_tool = 5

pub approval_status_beq_iff :
    (a b : ApprovalStatus)
    → (nat_beq (approval_status_discriminant a) (approval_status_discriminant b) ≡ true) ↔ (a ≡ b)
approval_status_beq_iff a b = ground arith

instance abbrev pub approval_status_eq : PartialEq ApprovalStatus
approval_status_eq = record {
  is_equal = λ a b. nat_beq (approval_status_discriminant a) (approval_status_discriminant b);
  decides = approval_status_beq_iff;
}

pub data ApprovalProxyStatus : Type 0 where
  none active lost : ApprovalProxyStatus

abbrev pub proxy_status_discriminant : ApprovalProxyStatus → ℕ
proxy_status_discriminant ApprovalProxyStatus.none = 0
proxy_status_discriminant ApprovalProxyStatus.active = 1
proxy_status_discriminant ApprovalProxyStatus.lost = 2

pub proxy_status_beq_iff :
    (a b : ApprovalProxyStatus)
    → (nat_beq (proxy_status_discriminant a) (proxy_status_discriminant b) ≡ true) ↔ (a ≡ b)
proxy_status_beq_iff a b = ground arith

instance abbrev pub proxy_status_eq : PartialEq ApprovalProxyStatus
proxy_status_eq = record {
  is_equal = λ a b. nat_beq (proxy_status_discriminant a) (proxy_status_discriminant b);
  decides = proxy_status_beq_iff;
}

pub data ApprovalDecisionKind : Type 0 where
  allow deny : ApprovalDecisionKind

pub data ApprovalChannel : Type 0 where
  hook_proxy niuma_codex_relay : ApprovalChannel

abbrev pub channel_discriminant : ApprovalChannel → ℕ
channel_discriminant ApprovalChannel.hook_proxy = 0
channel_discriminant ApprovalChannel.niuma_codex_relay = 1

pub channel_beq_iff :
    (a b : ApprovalChannel)
    → (nat_beq (channel_discriminant a) (channel_discriminant b) ≡ true) ↔ (a ≡ b)
channel_beq_iff a b = ground arith

instance abbrev pub channel_eq : PartialEq ApprovalChannel
channel_eq = record {
  is_equal = λ a b. nat_beq (channel_discriminant a) (channel_discriminant b);
  decides = channel_beq_iff;
}

pub data EventType : Type 0 where
  session_started session_idled approval_requested approval_resolved approval_returned_to_codex
        approval_returned_to_tool input_requested task_failed assistant_message_completed
        manual_dismissed session_staled session_activity :
      EventType

abbrev pub event_type_discriminant : EventType → ℕ
event_type_discriminant EventType.session_started = 0
event_type_discriminant EventType.session_idled = 1
event_type_discriminant EventType.approval_requested = 2
event_type_discriminant EventType.approval_resolved = 3
event_type_discriminant EventType.approval_returned_to_codex = 4
event_type_discriminant EventType.approval_returned_to_tool = 5
event_type_discriminant EventType.input_requested = 6
event_type_discriminant EventType.task_failed = 7
event_type_discriminant EventType.assistant_message_completed = 8
event_type_discriminant EventType.manual_dismissed = 9
event_type_discriminant EventType.session_staled = 10
event_type_discriminant EventType.session_activity = 11

pub event_type_beq_iff :
    (a b : EventType)
    → (nat_beq (event_type_discriminant a) (event_type_discriminant b) ≡ true) ↔ (a ≡ b)
event_type_beq_iff a b = ground arith

instance abbrev pub event_type_eq : PartialEq EventType
event_type_eq = record {
  is_equal = λ a b. nat_beq (event_type_discriminant a) (event_type_discriminant b);
  decides = event_type_beq_iff;
}

pub data CompletionReason : Type 0 where
  normal interrupted rolled_back aborted_unknown : CompletionReason

pub data FailureReason : Type 0 where
  timeout context_window_exceeded usage_limit_reached server_overloaded policy_blocked
        response_stream_failed connection_failed quota_exceeded internal_server_error retry_limit
        sandbox_error fatal unknown :
      FailureReason

pub data EventSessionScope : Type 0 where
  main subagent : EventSessionScope

abbrev pub session_scope_discriminant : EventSessionScope → ℕ
session_scope_discriminant EventSessionScope.main = 0
session_scope_discriminant EventSessionScope.subagent = 1

pub session_scope_beq_iff :
    (a b : EventSessionScope)
    → (nat_beq (session_scope_discriminant a) (session_scope_discriminant b) ≡ true) ↔ (a ≡ b)
session_scope_beq_iff a b = ground arith

instance abbrev pub session_scope_eq : PartialEq EventSessionScope
session_scope_eq = record {
  is_equal = λ a b. nat_beq (session_scope_discriminant a) (session_scope_discriminant b);
  decides = session_scope_beq_iff;
}

pub data EventInteractionKind : Type 0 where
  approval input : EventInteractionKind

abbrev pub interaction_kind_discriminant : EventInteractionKind → ℕ
interaction_kind_discriminant EventInteractionKind.approval = 0
interaction_kind_discriminant EventInteractionKind.input = 1

pub interaction_kind_beq_iff :
    (a b : EventInteractionKind)
    → (nat_beq (interaction_kind_discriminant a) (interaction_kind_discriminant b) ≡ true) ↔ (a ≡ b)
interaction_kind_beq_iff a b = ground arith

instance abbrev pub interaction_kind_eq : PartialEq EventInteractionKind
interaction_kind_eq = record {
  is_equal = λ a b. nat_beq (interaction_kind_discriminant a) (interaction_kind_discriminant b);
  decides = interaction_kind_beq_iff;
}

pub data EventInteractionHandling : Type 0 where
  niuma tool none : EventInteractionHandling

abbrev pub interaction_handling_discriminant : EventInteractionHandling → ℕ
interaction_handling_discriminant EventInteractionHandling.niuma = 0
interaction_handling_discriminant EventInteractionHandling.tool = 1
interaction_handling_discriminant EventInteractionHandling.none = 2

pub interaction_handling_beq_iff :
    (a b : EventInteractionHandling)
    → (nat_beq (interaction_handling_discriminant a) (interaction_handling_discriminant b) ≡ true)
      ↔ (a ≡ b)
interaction_handling_beq_iff a b = ground arith

instance abbrev pub interaction_handling_eq : PartialEq EventInteractionHandling
interaction_handling_eq = record {
  is_equal =
      λ a b. nat_beq (interaction_handling_discriminant a) (interaction_handling_discriminant b);
  decides = interaction_handling_beq_iff;
}
