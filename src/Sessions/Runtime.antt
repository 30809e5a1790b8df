-- ===== src/Sessions/Runtime.antt =====
-- The groups with the states of the runs, beside the groups without them. The program makes a hash
-- map for each, so their orders may differ where conversations tie.
use niu_ma_notifier.Prelude.HashMap
use niu_ma_notifier.Prelude.{
  ℕ, String, ◌≡◌, refl, ap, sym, ◌∙◌, inl, inr, Bool, true, false, Option, none, some, List, [],
  ◌∷◌, map, arith, Option-cases, length, length-map, string_eq,
}
use niu_ma_notifier.Prelude.Order.{on}
use niu_ma_notifier.Prelude.Sort.{sum, sort_by, map-sort_by, sum-map, map-map}
use niu_ma_notifier.Models.{RuntimeStateItem, DateTime}
use niu_ma_notifier.ToolSession.{ToolSessionListItem}
use niu_ma_notifier.Sessions.{
  RawSessionSummary, RuntimeRawSessionSummary, NormalizedSessionSummary,
  RuntimeNormalizedSessionSummary, ProjectSessionGroup, RuntimeProjectSessionGroup, map_option,
  map_all, ProjectAccumulator, raw_session_summary, runtime_raw_session_summary,
  summary_with_primary, runtime_summary_with_primary, normalized_summary,
  runtime_normalized_summary, group_of, runtime_group_of, into_group, into_runtime_group,
  sorted_groups, sorted_runtime_groups, Snapshots, projects_of, ToolSessionProjectGroupsQuery,
  summary_order, group_order, raw_session_order, primary_session,
}

-- What is left of the summaries and the groups without the states of the runs.
abbrev forget_raw : RuntimeRawSessionSummary → RawSessionSummary
forget_raw s = record {
  session_id = s.session_id;
  parent_session_id = s.parent_session_id;
  normalized_session_id = s.normalized_session_id;
  session_scope = s.session_scope;
  agent_nickname = s.agent_nickname;
  agent_role = s.agent_role;
  normalization_status = s.normalization_status;
  source_path = s.source_path;
  updated_at = s.updated_at;
  is_active = s.is_active;
  status = s.status;
}

abbrev forget_summary : RuntimeNormalizedSessionSummary → NormalizedSessionSummary
forget_summary s = record {
  normalized_session_id = s.normalized_session_id;
  primary_session_id = s.primary_session_id;
  title = s.title;
  status = s.status;
  updated_at = s.updated_at;
  first_user_message_preview = s.first_user_message_preview;
  first_user_message_at = s.first_user_message_at;
  latest_event_summary = s.latest_event_summary;
  subagent_count = s.subagent_count;
  control = s.control;
  raw_sessions = map_option (map forget_raw) s.raw_sessions;
}

abbrev pub forget_group : RuntimeProjectSessionGroup → ProjectSessionGroup
forget_group g = record {
  tool = g.tool;
  project_path = g.project_path;
  project_name = g.project_name;
  updated_at = g.updated_at;
  normalized_session_count = g.normalized_session_count;
  raw_session_count = g.raw_session_count;
  subagent_count = g.subagent_count;
  sessions = map forget_summary g.sessions;
}

module _ (states : List RuntimeStateItem) where
  forget_raws :
      (xs : List ToolSessionListItem)
      → map forget_raw (map (runtime_raw_session_summary states) xs) ≡ map raw_session_summary xs
  unfolding runtime_raw_session_summary raw_session_summary
  forget_raws xs = map-map (runtime_raw_session_summary states) forget_raw xs

  summary_with_primary_forget :
      (id : String) (xs : List ToolSessionListItem) (b : Bool) (p : ToolSessionListItem)
      → forget_summary (runtime_summary_with_primary id xs b states p)
        ≡ summary_with_primary id xs b p
  unfolding runtime_summary_with_primary summary_with_primary
  summary_with_primary_forget id xs false p = refl
  summary_with_primary_forget id xs true p =
      ap (λ rs. record (summary_with_primary id xs true p) { raw_sessions = some rs })
        (forget_raws xs)

  normalized_summary_forget :
      (id : String) (xs : List ToolSessionListItem) (b : Bool)
      → map_option forget_summary (runtime_normalized_summary id xs b states)
        ≡ normalized_summary id xs b
  unfolding runtime_normalized_summary normalized_summary
  normalized_summary_forget id xs b = primary (primary_session id (sort_by raw_session_order xs))
    where
      primary :
          (o : Option ToolSessionListItem)
          → map_option forget_summary (
              map_option
                (runtime_summary_with_primary id (sort_by raw_session_order xs) b states)
                o)
            ≡ map_option (summary_with_primary id (sort_by raw_session_order xs) b) o
      primary none = refl
      primary (some p) = ap some (summary_with_primary_forget id (sort_by raw_session_order xs) b p)

  group_of_forget :
      (now : DateTime) (project : ProjectAccumulator) (xs : List RuntimeNormalizedSessionSummary)
      → forget_group (runtime_group_of now project xs)
        ≡ group_of now project (map forget_summary xs)
  unfolding runtime_group_of group_of
  group_of_forget now project xs =
      let ys = sort_by (on summary_order forget_summary) xs in
      rw
        (
          sym (map-sort_by forget_summary summary_order xs),
          map-map forget_summary (λ (s : NormalizedSessionSummary). s.updated_at) ys,
          length-map forget_summary ys,
          sum-map forget_summary (λ (s : NormalizedSessionSummary). s.subagent_count) ys,
        )
        refl

  map_all_forget :
      {A B C : Type 0} (f : A → Option B) (g : B → C) (h : A → Option C) (xs : List A)
      → ((x : A) → map_option g (f x) ≡ h x)
      → map_option (map g) (map_all f xs) ≡ map_all h xs
  unfolding map_all
  map_all_forget f g h [] k = refl
  map_all_forget f g h (x ∷ xs) k = elim (Option-cases (f x)) [
    | inl e ↦ ground (arith, e, k x, map_all_forget f g h xs k)
    | inr (y, e) ↦ elim (Option-cases (map_all f xs)) [
      | inl q ↦ ground (arith, e, q, k x, map_all_forget f g h xs k)
      | inr (ys, q) ↦ ground (arith, e, q, k x, map_all_forget f g h xs k)
    ]
  ]

  map_option_square :
      {A B C D : Type 0} (f : A → B) (g : B → D) (h : A → C) (k : C → D) (o : Option A)
      → ((a : A) → g (f a) ≡ k (h a))
      → map_option g (map_option f o) ≡ map_option k (map_option h o)
  map_option_square f g h k none e = refl
  map_option_square f g h k (some a) e = ap some (e a)

  into_group_forget :
      (now : DateTime) (b : Bool) (project : ProjectAccumulator)
      → map_option forget_group (into_runtime_group now b states project) ≡ into_group now b project
  unfolding into_group into_runtime_group
  into_group_forget now b project =
      map_option_square (runtime_group_of now project) forget_group (map forget_summary)
        (group_of now project) _ (group_of_forget now project)
      ∙ ap (map_option (group_of now project)) (
          map_all_forget _ forget_summary _ project.sessions
            (λ (entry : String × List ToolSessionListItem).
              normalized_summary_forget entry.0 entry.1 b))

-- Read off one list of the projects, the groups agree in their order too.
forget_group-sorted_runtime_groups :
    (now : DateTime) (snapshots : Snapshots) (query : ToolSessionProjectGroupsQuery)
    (runtime_states : List RuntimeStateItem)
    → map_option (map forget_group) (sorted_runtime_groups now snapshots query runtime_states)
      ≡ sorted_groups now snapshots query
unfolding sorted_runtime_groups sorted_groups
forget_group-sorted_runtime_groups now snapshots query runtime_states =
    map_option_square runtime_states (sort_by (on group_order forget_group)) (map forget_group)
      (map forget_group) (sort_by group_order) _ (map-sort_by forget_group group_order)
    ∙ ap (map_option (sort_by group_order)) (
        map_all_forget runtime_states
          (into_runtime_group now query.include_subagents runtime_states) forget_group
          (into_group now query.include_subagents) (HashMap.values (projects_of snapshots query))
          (into_group_forget runtime_states now query.include_subagents))

-- The sum of a weight over all sessions of all groups, each with its group.
abbrev pub weigh :
    (ProjectSessionGroup → NormalizedSessionSummary → ℕ) → List ProjectSessionGroup → ℕ
weigh weight groups =
    sum
      (λ (group : ProjectSessionGroup).
        sum (weight (record group { sessions = [] })) group.sessions)
      groups

map_option-map_option :
    {A B C : Type 0} (f : A → B) (g : B → C) (o : Option A)
    → map_option g (map_option f o) ≡ map_option (λ a. g (f a)) o
map_option-map_option f g none = refl
map_option-map_option f g (some a) = refl

map_option_cong :
    {A B : Type 0} (f g : A → B) (o : Option A)
    → ((a : A) → f a ≡ g a)
    → map_option f o ≡ map_option g o
map_option_cong f g none h = refl
map_option_cong f g (some a) h = ap some (h a)

-- The groups with the states of the runs are, without these states, the groups that a client gets
-- without them, up to their order: they are made exactly when these are, they are as many, and every
-- weight of the sessions, each taken with what its group says, has the same sum.
pub sorted_runtime_groups_sessions :
    (now : DateTime) (snapshots : Snapshots) (query : ToolSessionProjectGroupsQuery)
    (runtime_states : List RuntimeStateItem)
    (weight : ProjectSessionGroup → NormalizedSessionSummary → ℕ)
    → (map_option length (sorted_runtime_groups now snapshots query runtime_states)
        ≡ map_option length (sorted_groups now snapshots query))
      × (map_option
            (λ (groups : List RuntimeProjectSessionGroup). weigh weight (map forget_group groups))
            (sorted_runtime_groups now snapshots query runtime_states)
          ≡ map_option (weigh weight) (sorted_groups now snapshots query))
sorted_runtime_groups_sessions now snapshots query runtime_states weight =
    let groups = sorted_runtime_groups now snapshots query runtime_states in
    let same = forget_group-sorted_runtime_groups now snapshots query runtime_states in
    (
      map_option_cong _ _ groups (λ gs. sym (length-map forget_group gs))
          ∙ sym (map_option-map_option (map forget_group) length groups)
          ∙ ap (map_option length) same,
      sym (map_option-map_option (map forget_group) (weigh weight) groups)
          ∙ ap (map_option (weigh weight)) same,
    )
