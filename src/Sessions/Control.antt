-- ===== src/Sessions/Control.antt =====
-- The channels of the control that is merged from the raw sessions of a conversation.
use niu_ma_notifier.Prelude.HashMap
use niu_ma_notifier.Prelude.HashMap.{get-insert}
use niu_ma_notifier.Prelude.{
  String, ◌≡◌, refl, ap, sym, ◌∙◌, inl, inr, Bool, true, false, not, ◌&&◌, Option, none, some, List,
  [], ◌∷◌, arith, any, find?, filter_map, is_some-find?, is_some_and, All, Bool-cases, Option-cases,
  string_eq, nat_eq, option_eq, ◌==◌, ltb, ◌||◌,
}
use niu_ma_notifier.Prelude.Sort.{any-sort_by, All-imp}
use niu_ma_notifier.ToolSession.{ToolSessionControl, ToolSessionControlChannel, ToolSessionListItem}
use niu_ma_notifier.Sessions.{
  ChannelsById, control_channel_should_replace, control_channel_can_resume, control_channel_sort,
  newer_channel, merge_channels, merge_controls, control_of, control_from, normalized_control,
}

-- A channel stands for another one: it has its id, is not older and, of the same time, not less
-- available.
unfoldable stands_for : ToolSessionControlChannel → ToolSessionControlChannel → Bool
stands_for channel existing =
    (existing.id == channel.id)
    && (ltb channel.updated_at existing.updated_at
        || ((existing.updated_at == channel.updated_at)
            && (existing.available || not channel.available)))

stands_for_self : (c : ToolSessionControlChannel) → stands_for c c ≡ true
unfolding stands_for control_channel_should_replace
stands_for_self c = ground (arith, string_eq.decides c.id c.id)

stands_for_trans :
    (a b c : ToolSessionControlChannel)
    → stands_for a b ≡ true
    → b.id ≡ c.id
    → control_channel_should_replace b c ≡ true
    → stands_for a c ≡ true
unfolding stands_for control_channel_should_replace
stands_for_trans a b c h e k =
    ground (arith, string_eq.decides b.id a.id, string_eq.decides c.id a.id)

stands_for_other :
    (c e : ToolSessionControlChannel)
    → e.id ≡ c.id
    → control_channel_should_replace e c ≡ false
    → stands_for c e ≡ true
unfolding stands_for control_channel_should_replace
stands_for_other c e i h = ground (arith, string_eq.decides e.id c.id)

-- The map has a channel that stands for the given one.
abbrev Has : ChannelsById → ToolSessionControlChannel → Type 0
Has m c = is_some_and (HashMap.get m c.id) (stands_for c) ≡ true

-- Each channel is under its own id.
abbrev Keyed : ChannelsById → Type 0
Keyed m = (k : String) (e : ToolSessionControlChannel) → HashMap.get m k ≡ some e → e.id ≡ k

abbrev step : ChannelsById → ToolSessionControlChannel → ChannelsById
step m d = HashMap.update m d.id (newer_channel d)

newer_channel_id :
    (d : ToolSessionControlChannel) (o : Option ToolSessionControlChannel)
    → ((e : ToolSessionControlChannel) → o ≡ some e → e.id ≡ d.id)
    → (newer_channel d o).id ≡ d.id
unfolding newer_channel
newer_channel_id d none h = refl
newer_channel_id d (some e) h = elim (Bool-cases (control_channel_should_replace e d)) [
  | inl g ↦ rw g refl
  | inr g ↦ rw g (h e refl)
]

step-Keyed : (m : ChannelsById) (d : ToolSessionControlChannel) → Keyed m → Keyed (step m d)
unfolding HashMap.update
step-Keyed m d v k e h = elim (Bool-cases (d.id == k)) [
  | inl g ↦
      let o = HashMap.get m d.id in
      let e' : newer_channel d (HashMap.get m d.id) ≡ e =
        ground (arith, get-insert m d.id (newer_channel d (HashMap.get m d.id)) k) in
      sym (ap (λ (c : ToolSessionControlChannel). c.id) e')
      ∙ newer_channel_id d (HashMap.get m d.id) (v d.id)
      ∙ (string_eq.decides d.id k).0 g
  | inr g ↦ v k e (ground (arith, get-insert m d.id (newer_channel d (HashMap.get m d.id)) k))
]

step-Has_self : (m : ChannelsById) (d : ToolSessionControlChannel) → Keyed m → Has (step m d) d
unfolding HashMap.update newer_channel
step-Has_self m d v = elim (Option-cases (HashMap.get m d.id)) [
  | inl p ↦
      ground (arith, p, get-insert m d.id d d.id, string_eq.decides d.id d.id, stands_for_self d)
  | inr (e, p) ↦ elim (Bool-cases (control_channel_should_replace e d)) [
    | inl g ↦
        ground
          (arith, p, g, get-insert m d.id d d.id, string_eq.decides d.id d.id, stands_for_self d)
    | inr g ↦ ground (
      arith,
      p,
      g,
      get-insert m d.id e d.id,
      string_eq.decides d.id d.id,
      stands_for_other d e (v d.id e p) g,
    )
  ]
]

step-Has :
    (m : ChannelsById) (d c : ToolSessionControlChannel) → Keyed m → Has m c → Has (step m d) c
unfolding HashMap.update newer_channel
step-Has m d c v h = elim (Bool-cases (d.id == c.id)) [
  | inr g ↦ ground (arith, g, h, get-insert m d.id (newer_channel d (HashMap.get m d.id)) c.id)
  | inl g ↦ elim (Option-cases (HashMap.get m c.id)) [
    | inl p ↦ absurd (ground (arith, p))
    | inr (e, p) ↦
        let i : d.id ≡ c.id = (string_eq.decides d.id c.id).0 g in
        let q : HashMap.get m d.id ≡ some e = ap (λ k. HashMap.get m k) i ∙ p in
        let s : stands_for c e ≡ true = ground (arith, h, p) in
        elim (Bool-cases (control_channel_should_replace e d)) [
          | inl r ↦
              ground
                (arith, q, r, get-insert m d.id d c.id, stands_for_trans c e d s (v d.id e q) r)
          | inr r ↦ ground (arith, q, r, s, get-insert m d.id e c.id)
        ]
  ]
]

merge_channels-Keyed :
    (cs : List ToolSessionControlChannel) (m : ChannelsById) → Keyed m → Keyed (merge_channels m cs)
unfolding merge_channels
merge_channels-Keyed [] m v = v
merge_channels-Keyed (c ∷ cs) m v = merge_channels-Keyed cs (step m c) (step-Keyed m c v)

merge_channels-Has :
    (cs : List ToolSessionControlChannel) (m : ChannelsById) (c : ToolSessionControlChannel)
    → Keyed m
    → Has m c
    → Has (merge_channels m cs) c
unfolding merge_channels
merge_channels-Has [] m c v h = h
merge_channels-Has (d ∷ cs) m c v h =
    merge_channels-Has cs (step m d) c (step-Keyed m d v) (step-Has m d c v h)

merge_channels-All :
    (cs : List ToolSessionControlChannel) (m : ChannelsById)
    → Keyed m
    → All (Has (merge_channels m cs)) cs
unfolding merge_channels
merge_channels-All [] m v = tt
merge_channels-All (c ∷ cs) m v =
    let w = step-Keyed m c v in
    (merge_channels-Has cs (step m c) c w (step-Has_self m c v), merge_channels-All cs (step m c) w)

merge_controls-Has :
    (cs : List ToolSessionControl) (m : ChannelsById) (c : ToolSessionControlChannel)
    → Keyed m
    → Has m c
    → Has (merge_controls m cs) c
unfolding merge_controls
merge_controls-Has [] m c v h = h
merge_controls-Has (d ∷ cs) m c v h =
    merge_controls-Has cs (merge_channels m d.channels) c (merge_channels-Keyed d.channels m v)
      (merge_channels-Has d.channels m c v h)

merge_controls-All :
    (cs : List ToolSessionControl) (m : ChannelsById)
    → Keyed m
    → All (λ (control : ToolSessionControl). All (Has (merge_controls m cs)) control.channels) cs
unfolding merge_controls
merge_controls-All [] m v = tt
merge_controls-All (d ∷ cs) m v =
    let w = merge_channels-Keyed d.channels m v in
    let n = merge_channels m d.channels in
    (
      All-imp d.channels (λ c h. merge_controls-Has cs n c w h) (merge_channels-All d.channels m v),
      merge_controls-All cs n w,
    )

any_of_get :
    (p : ToolSessionControlChannel → Bool) (m : ChannelsById) (k : String)
    → is_some_and (HashMap.get m k) p ≡ true
    → any p (HashMap.values m) ≡ true
unfolding HashMap.get any
any_of_get p [] k h = h
any_of_get p ((j, c) ∷ m) k h = elim (Bool-cases (j == k)) [
  | inl e ↦ ground (arith, e)
  | inr e ↦ ground (arith, e, any_of_get p m k)
]

-- The channels of a control that may be missing.
abbrev pub channels_of : Option ToolSessionControl → List ToolSessionControlChannel
channels_of none = []
channels_of (some control) = control.channels

any-control_from :
    (p : ToolSessionControlChannel → Bool) (m : ChannelsById)
    → any p (channels_of (control_from m)) ≡ any p (HashMap.values m)
unfolding control_from control_of
any-control_from p [] = refl
any-control_from p (e ∷ m) = any-sort_by control_channel_sort p (HashMap.values (e ∷ m))

-- A channel that a session of a conversation offers is kept: the control of the conversation has a
-- channel with its id that is not older and, of the same time, not less available.
pub normalized_control_keeps :
    (primary : ToolSessionListItem) (raw_sessions : List ToolSessionListItem)
    → All
        (λ (control : ToolSessionControl).
          All
            (λ (channel : ToolSessionControlChannel).
              any
                (λ (kept : ToolSessionControlChannel).
                  (kept.id == channel.id)
                  && (ltb channel.updated_at kept.updated_at
                      || ((kept.updated_at == channel.updated_at)
                          && (kept.available || not channel.available))))
                (channels_of (normalized_control primary raw_sessions))
              ≡ true)
            control.channels)
        (filter_map (λ (item : ToolSessionListItem). item.control) (primary ∷ raw_sessions))
unfolding normalized_control stands_for HashMap.get
normalized_control_keeps primary raw_sessions =
    let controls =
      filter_map (λ (item : ToolSessionListItem). item.control) (primary ∷ raw_sessions) in
    let m = merge_controls [] controls in
    All-imp controls
      (λ control h.
        All-imp control.channels
          (λ c k. any-control_from (stands_for c) m ∙ any_of_get (stands_for c) m c.id k) h)
      (merge_controls-All controls [] empty)
  where
    empty : Keyed []
    empty k e h = absurd (ground arith)

preferred_found :
    (p : ToolSessionControlChannel → Bool) (xs : List ToolSessionControlChannel)
    (x : ToolSessionControlChannel)
    → find? p xs ≡ some x
    → any (λ (c : ToolSessionControlChannel). p c && (x.id == c.id)) xs ≡ true
unfolding find? any
preferred_found p [] x h = absurd (ground arith)
preferred_found p (y ∷ xs) x h = elim (Bool-cases (p y)) [
  | inl e ↦
      let i : y.id ≡ x.id = ground (arith, e, h) in ground (arith, e, string_eq.decides x.id y.id)
  | inr e ↦ ground (arith, e, preferred_found p xs x)
]

-- A conversation can be resumed exactly when one of the channels of its control can resume it, and
-- then the preferred channel is one that can.
pub control_of_preferred :
    (channels : List ToolSessionControlChannel)
    → any control_channel_can_resume channels ≡ true
    → any
        (λ (channel : ToolSessionControlChannel).
          control_channel_can_resume channel
          && ((control_of channels).preferred_channel_id == some channel.id))
        channels
      ≡ true
unfolding control_of
control_of_preferred channels h = elim (Option-cases (find? control_channel_can_resume channels)) [
  | inl e ↦ absurd (ground (arith, e, is_some-find? control_channel_can_resume channels))
  | inr (x, e) ↦ rw e (preferred_found control_channel_can_resume channels x e)
]
