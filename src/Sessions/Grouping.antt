-- ===== src/Sessions/Grouping.antt =====
-- The groups lose no session: how many sessions the groups of a query count.
use niu_ma_notifier.Prelude.HashMap
use niu_ma_notifier.Prelude.HashMap.{sum-insert, All-insert, get-All, weight}
use niu_ma_notifier.Prelude.{
  ℕ, ◌+◌, ◌≤◌, String, ◌≡◌, refl, ap, sym, ◌∙◌, inl, inr, Bool, true, not, Option, none, some, List,
  [], ◌∷◌, ◌++◌, arith, length, retain, All, is_some, Bool-cases, Option-cases, string_eq,
  length-append, find?, ◌==◌,
}
use niu_ma_notifier.Prelude.Sort.{sum, sort_by, sum-sort_by, length-sort_by, All-imp}
use niu_ma_notifier.Models.{DateTime}
use niu_ma_notifier.ToolSession.{ToolSessionListItem, ToolSessionScope, scope_eq}
use niu_ma_notifier.Sessions.{
  Snapshots, ToolSessionProjectGroupsQuery, ProjectAccumulator, Projects, new_accumulator,
  push_session, push_item, push_project, is_excluded, collect_projects, project_key,
  normalized_session_id_for, session_scope_for, primary_session, raw_session_order,
  normalized_summary, map_all, map_option, unwrap_or, into_group, group_of, group_order,
  ProjectSessionGroup, sorted_groups, projects_of, snapshot_items, asked_project,
}

-- How many sessions a project holds.
abbrev held : ProjectAccumulator → ℕ
held project = sum length (HashMap.values project.sessions)

-- Every normalized id of the project has a session.
abbrev Inhabited : ProjectAccumulator → Type 0
Inhabited project =
    All (λ (xs : List ToolSessionListItem). 1 ≤ length xs) (HashMap.values project.sessions)

push_item-held :
    (p : ProjectAccumulator) (x : ToolSessionListItem) → held (push_item p x) ≡ held p + 1
unfolding push_item HashMap.update push_session
push_item-held p x =
    let k = normalized_session_id_for x in
    let g = HashMap.get p.sessions k in
    elim (Option-cases g) [
      | inl e ↦ ground (arith, e, sum-insert length p.sessions k (x ∷ []))
      | inr (xs, e) ↦
          ground
            (arith, e, sum-insert length p.sessions k (xs ++ x ∷ []), length-append xs (x ∷ []))
    ]

push_item-Inhabited :
    (p : ProjectAccumulator) (x : ToolSessionListItem) → Inhabited p → Inhabited (push_item p x)
unfolding push_item HashMap.update push_session
push_item-Inhabited p x h =
    All-insert _ p.sessions (normalized_session_id_for x) _
      (pushed (HashMap.get p.sessions (normalized_session_id_for x))) h
  where
    pushed : (o : Option (List ToolSessionListItem)) → 1 ≤ length (push_session x o)
    pushed none = omega arith
    pushed (some xs) = omega (arith, length-append xs (x ∷ []))

pushed_project-held :
    (x : ToolSessionListItem) (o : Option ProjectAccumulator)
    → held (push_project x o) ≡ weight held o + 1
unfolding push_project new_accumulator sum
pushed_project-held x none = push_item-held (new_accumulator x) x
pushed_project-held x (some p) = push_item-held p x

pushed_project-Inhabited :
    (x : ToolSessionListItem) (m : Projects) (o : Option ProjectAccumulator)
    → HashMap.get m (project_key x) ≡ o
    → All Inhabited (HashMap.values m)
    → Inhabited (push_project x o)
unfolding push_project new_accumulator
pushed_project-Inhabited x m none e h = push_item-Inhabited (new_accumulator x) x tt
pushed_project-Inhabited x m (some p) e h = push_item-Inhabited p x (get-All _ m _ p e h)

collect-held :
    (path : Option String) (m : Projects) (xs : List ToolSessionListItem)
    → sum held (HashMap.values (collect_projects path m xs))
      ≡ sum held (HashMap.values m) + length (retain (λ x. not (is_excluded path x)) xs)
unfolding collect_projects retain HashMap.update push_project
collect-held path m [] = omega arith
collect-held path m (x ∷ xs) = elim (Bool-cases (is_excluded path x)) [
  | inl h ↦ rw h (collect-held path m xs)
  | inr h ↦ rw h (
      omega (
        arith,
        collect-held path
            (HashMap.insert m (project_key x) (push_project x (HashMap.get m (project_key x)))) xs,
        sum-insert held m (project_key x) (push_project x (HashMap.get m (project_key x))),
        pushed_project-held x (HashMap.get m (project_key x)),
      ))
]

collect-Inhabited :
    (path : Option String) (xs : List ToolSessionListItem) (m : Projects)
    → All Inhabited (HashMap.values m)
    → All Inhabited (HashMap.values (collect_projects path m xs))
unfolding collect_projects HashMap.update
collect-Inhabited path [] m h = h
collect-Inhabited path (x ∷ xs) m h = elim (Bool-cases (is_excluded path x)) [
  | inl e ↦ rw e (collect-Inhabited path xs m h)
  | inr e ↦ rw e (
      collect-Inhabited path xs
        (HashMap.insert m (project_key x) (push_project x (HashMap.get m (project_key x))))
        (All-insert _ m (project_key x) _
          (pushed_project-Inhabited x m (HashMap.get m (project_key x)) refl h) h))
]

primary_exists :
    (id : String) (xs : List ToolSessionListItem)
    → 1 ≤ length xs
    → is_some (primary_session id xs) ≡ true
unfolding primary_session
primary_exists id [] h = absurd (omega arith)
primary_exists id (x ∷ xs) h =
    elim (Option-cases (find? (λ item. session_scope_for item == ToolSessionScope.main) (x ∷ xs))) [
      | inr (y, e) ↦ rw e refl
      | inl e ↦
          rw e
            (elim (Option-cases
              (find? (λ (item : ToolSessionListItem). item.session_id == id) (x ∷ xs))) [
                | inr (y, g) ↦ rw g refl
                | inl g ↦ rw g refl
              ])
    ]

option_injective : {A : Type 0} {a b : A} → some a ≡ some b → a ≡ b
option_injective {A} {a} e = ap (λ o. unwrap_or o a) e

is_some-map_option :
    {A B : Type 0} (f : A → B) (o : Option A) → is_some o ≡ true → is_some (map_option f o) ≡ true
is_some-map_option f none h = h
is_some-map_option f (some a) h = refl

-- Every normalized id that has a session has a summary.
summary_exists :
    (id : String) (xs : List ToolSessionListItem) (b : Bool)
    → 1 ≤ length xs
    → is_some (normalized_summary id xs b) ≡ true
unfolding normalized_summary
summary_exists id xs b h = is_some-map_option _ _ (
    primary_exists id (sort_by raw_session_order xs)
      (omega (arith, length-sort_by raw_session_order xs)))

module _ {A B : Type 0} (f : A → Option B) where
  -- A map none of whose calls panics does not panic.
  map_all_exists :
      (xs : List A) → All (λ x. is_some (f x) ≡ true) xs → is_some (map_all f xs) ≡ true
  unfolding map_all
  map_all_exists [] h = refl
  map_all_exists (x ∷ xs) h = ground (arith, h.0, map_all_exists xs h.1)

  sum-map_all :
      (g : B → ℕ) (h : A → ℕ)
      → ((x : A) (y : B) → f x ≡ some y → g y ≡ h x)
      → (xs : List A) (ys : List B) → map_all f xs ≡ some ys
      → sum g ys ≡ sum h xs
  unfolding map_all sum
  sum-map_all g h k [] ys e = ground arith
  sum-map_all g h k (x ∷ xs) ys e = elim (Option-cases (f x)) [
    | inl p ↦ ground (arith, p)
    | inr (y, p) ↦ elim (Option-cases (map_all f xs)) [
      | inl q ↦ ground (arith, p, q)
      | inr (zs, q) ↦ ground (arith, p, q, k x y p, sum-map_all g h k xs zs q)
    ]
  ]

entries_exist :
    (b : Bool) (m : List (String × List ToolSessionListItem))
    → All (λ (xs : List ToolSessionListItem). 1 ≤ length xs) (HashMap.values m)
    → All
        (λ (entry : String × List ToolSessionListItem).
          is_some (normalized_summary entry.0 entry.1 b) ≡ true)
        m
entries_exist b [] h = tt
entries_exist b ((id, xs) ∷ m) h = (summary_exists id xs b h.0, entries_exist b m h.1)

into_group_exists :
    (now : DateTime) (b : Bool) (p : ProjectAccumulator)
    → Inhabited p
    → is_some (into_group now b p) ≡ true
unfolding into_group
into_group_exists now b p h =
    is_some-map_option _ _ (map_all_exists _ p.sessions (entries_exist b p.sessions h))

into_group_count :
    (now : DateTime) (b : Bool) (p : ProjectAccumulator) (g : ProjectSessionGroup)
    → into_group now b p ≡ some g
    → g.raw_session_count ≡ held p
unfolding into_group group_of
into_group_count now b p g h =
    elim (Option-cases (
      map_all (λ (entry : String × List ToolSessionListItem). normalized_summary entry.0 entry.1 b)
        p.sessions)) [
          | inl e ↦ ground (arith, e)
          | inr (ys, e) ↦ sym (ap raw (option_injective (rw e at h)))
        ]
  where
    raw : ProjectSessionGroup → ℕ
    raw g = g.raw_session_count

counted :
    (now : DateTime) (b : Bool) (projects : List ProjectAccumulator)
    → All Inhabited projects
    → map_option
        (sum (λ (group : ProjectSessionGroup). group.raw_session_count))
        (map_option (sort_by group_order) (map_all (into_group now b) projects))
      ≡ some (sum held projects)
counted now b projects h = elim (Option-cases (map_all (into_group now b) projects)) [
  | inl e ↦ absurd (
      ground (
        arith,
        e,
        map_all_exists (into_group now b) projects (All-imp projects (into_group_exists now b) h),
      ))
  | inr (gs, e) ↦ rw e (
      ap some (
        sum-sort_by group_order _ gs
        ∙ sum-map_all (into_group now b) _ held (into_group_count now b) projects gs e))
]

-- The groups of a query can be made whatever the snapshots hold, no list of raw sessions being
-- empty, and together they count each session that the query asks for once.
pub sorted_groups_count :
    (now : DateTime) (snapshots : Snapshots) (query : ToolSessionProjectGroupsQuery)
    → map_option
        (sum (λ (group : ProjectSessionGroup). group.raw_session_count))
        (sorted_groups now snapshots query)
      ≡ some (
          length (
            retain
              (λ item. not (is_excluded (asked_project query.project_path) item))
              (snapshot_items snapshots query.tool)))
unfolding sorted_groups projects_of sum
sorted_groups_count now snapshots query =
    let path = asked_project query.project_path in
    let items = snapshot_items snapshots query.tool in
    let total : sum held (HashMap.values (collect_projects path [] items))
        ≡ length (retain (λ x. not (is_excluded path x)) items) =
      omega (arith, collect-held path [] items) in
    counted now query.include_subagents (HashMap.values (collect_projects path [] items))
      (collect-Inhabited path items [] tt)
    ∙ ap some total
