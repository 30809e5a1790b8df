-- ===== src/Sessions/Listing.antt =====
-- What the list of sessions holds, and the pages of the groups.
use niu_ma_notifier.Prelude.{
  ℕ, zero, suc, ◌+◌, ◌*◌, ◌-◌, ◌^◌, ◌≤◌, ◌<◌, min, ap, ◌∙◌, none, if◌then◌else◌, ltb, leb, ◌≡◌,
  refl, sym, subst, inl, inr, Bool, true, List, [], ◌∷◌, some, false, arith, length, take,
  length-take-le, retain, All, Bool-cases, nat_eq, ◌==◌, ok,
}
use niu_ma_notifier.Prelude.Order.{
  IsLawful, not_greater, compare-IsLawful, text-IsLawful, on-IsLawful, descending-IsLawful,
  then_by-IsLawful,
}
use niu_ma_notifier.Prelude.Sort.{sort_by-IsSorted, All-sort_by, All-imp, IsSorted}
use niu_ma_notifier.Prelude.Slices.{skip, skip_all, All-take, take-before-skip, take-IsSorted}
use niu_ma_notifier.Models.{as_str, DateTime}
use niu_ma_notifier.ToolSession.{ToolSessionListItem}
use niu_ma_notifier.Sessions.{
  Snapshots, ToolSessionListQuery, capped_limit, session_order, is_listed, snapshot_items, listed,
  list, page_start, page_of, unwrap_or, first?, capped_page, capped_page_size, project_groups,
  sorted_groups, ToolSessionProjectGroupsQuery, ToolSessionProjectGroupPage, ProjectSessionGroup,
}

session_order-IsLawful : IsLawful session_order
session_order-IsLawful =
    then_by-IsLawful
      (descending-IsLawful
        (on-IsLawful (λ (item : ToolSessionListItem). item.last_seen_at) compare-IsLawful))
      (then_by-IsLawful
        (descending-IsLawful
          (on-IsLawful (λ (item : ToolSessionListItem). item.modified_at) compare-IsLawful))
        (then_by-IsLawful
          (on-IsLawful (λ (item : ToolSessionListItem). as_str item.tool) text-IsLawful)
          (then_by-IsLawful
            (on-IsLawful (λ (item : ToolSessionListItem). item.session_id) text-IsLawful)
            (on-IsLawful (λ (item : ToolSessionListItem). item.id) text-IsLawful))))

listed-IsSorted :
    (snapshots : Snapshots) (query : ToolSessionListQuery)
    → IsSorted session_order (listed snapshots query)
unfolding listed
listed-IsSorted snapshots query = sort_by-IsSorted session_order-IsLawful _

pub All-retain : {A : Type 0} (p : A → Bool) (xs : List A) → All (λ x. p x ≡ true) (retain p xs)
unfolding retain
All-retain p [] = tt
All-retain p (x ∷ xs) = elim (Bool-cases (p x)) [
  | inl e ↦ rw e (e, All-retain p xs)
  | inr e ↦ rw e (All-retain p xs)
]

-- Where an element of a list stands.
pub places : {A : Type 0} (xs : List A) → All (λ x. (n : ℕ) × (first? (skip n xs) ≡ some x)) xs
places [] = tt
places (x ∷ xs) = ((0, refl), All-imp xs (λ y (n, e). (suc n, e)) (places xs))

skip-length-take : {A : Type 0} (n : ℕ) (xs : List A) → skip (length (take n xs)) xs ≡ skip n xs
skip-length-take zero xs = refl
skip-length-take (suc n) [] = refl
skip-length-take (suc n) (x ∷ xs) = skip-length-take n xs

-- What a returned list is: at most 500 sessions that pass the filters, in order, before the rest.
abbrev IsFirst : Snapshots → ToolSessionListQuery → List ToolSessionListItem → Type 0
IsFirst snapshots query items =
    (length items ≤ 500)
    × IsSorted session_order items
    × All (λ item. is_listed query item ≡ true) items
    × All
        (λ x.
          All (λ y. not_greater (session_order x y) ≡ true)
            (skip (length items) (listed snapshots query)))
        items

take-IsFirst :
    (snapshots : Snapshots) (query : ToolSessionListQuery) (n : ℕ)
    → n ≤ 500
    → IsFirst snapshots query (take n (listed snapshots query))
unfolding listed
take-IsFirst snapshots query n h =
    let xs = listed snapshots query in
    (
      omega (arith, length-take-le n xs),
      take-IsSorted session_order n xs (listed-IsSorted snapshots query),
      All-take _ n xs (
          All-sort_by session_order _ _
            (All-retain (is_listed query) (snapshot_items snapshots query.tool))),
      subst (λ rest. All (λ x. All (λ y. not_greater (session_order x y) ≡ true) rest) (take n xs))
          (sym (skip-length-take n xs))
          (take-before-skip session_order n xs (listed-IsSorted snapshots query)),
    )

-- A list that is returned has at most 500 sessions, all of which pass the filters of the query, in
-- the order of the registry, and no session that passes them and is cut off belongs before one that
-- is returned.
pub list-IsSorted :
    (snapshots : Snapshots) (query : ToolSessionListQuery) (items : List ToolSessionListItem)
    → list snapshots query ≡ ok items
    → (length items ≤ 500)
      × IsSorted session_order items
      × All (λ item. is_listed query item ≡ true) items
      × All
          (λ x.
            All
              (λ y. not_greater (session_order x y) ≡ true)
              (skip (length items) (listed snapshots query)))
          items
unfolding list capped_limit
list-IsSorted snapshots query items h =
    let n = unwrap_or query.limit 100 in
    elim (Bool-cases (n == 0)) [
      | inl e ↦ absurd (ground (arith, e))
      | inr e ↦
          let k = rw e at h in
          let taken : take (min n 500) (listed snapshots query) ≡ items = cc k in
          let m : min n 500 ≤ 500 = omega arith in
          subst (IsFirst snapshots query) taken (take-IsFirst snapshots query (min n 500) m)
    ]

module _ {A : Type 0} where
  first-take :
      (i n : ℕ) (xs : List A)
      → first? (skip i (take n xs)) ≡ (if ltb i n then first? (skip i xs) else none)
  first-take zero zero xs = refl
  first-take (suc i) zero xs = ground arith
  first-take zero (suc n) [] = ground arith
  first-take (suc i) (suc n) [] = ground arith
  first-take zero (suc n) (x ∷ xs) = ground arith
  first-take (suc i) (suc n) (x ∷ xs) = ground (arith, first-take i n xs)

  skip-skip : (i n : ℕ) (xs : List A) → skip i (skip n xs) ≡ skip (n + i) xs
  skip-skip i zero xs = let e : zero + i ≡ i = omega arith in rw e refl
  skip-skip i (suc n) [] = skip_all i [] (omega arith) ∙ sym (skip_all (suc n + i) [] (omega arith))
  skip-skip i (suc n) (x ∷ xs) =
      let e : suc n + i ≡ suc (n + i) = omega arith in rw e (skip-skip i n xs)

  -- A page that starts at the largest number starts behind the list.
  skip-page_start :
      (page page_size i : ℕ) (xs : List A)
      → length xs ≤ 2 ^ 64 - 1
      → skip (page_start page page_size + i) xs ≡ skip ((page - 1) * page_size + i) xs
  unfolding page_start
  skip-page_start page page_size i xs h =
      elim (Bool-cases (leb ((page - 1) * page_size) (2 ^ 64 - 1))) [
        | inl e ↦
            let k : min ((page - 1) * page_size) (2 ^ 64 - 1) ≡ (page - 1) * page_size =
              ground arith in
            rw k refl
        | inr e ↦
            let k : min ((page - 1) * page_size) (2 ^ 64 - 1) ≡ 2 ^ 64 - 1 = ground arith in
            rw k (
              skip_all _ xs (omega arith)
              ∙ sym (skip_all ((page - 1) * page_size + i) xs (ground arith)))
      ]

positive : (n : ℕ) → (n == 0) ≡ false → 0 < n
positive n h = ground arith

-- A page of the groups that is returned has the number that was asked for, the first if none was,
-- and the size that was asked for, 20 if none was, but 100 at most; neither is 0. It tells how many
-- groups there are, and its position `i` holds the group at `(page - 1) * page_size + i` of the
-- sorted groups that this call made, as long as `i` is less than the size and there is such a group,
-- and nothing else. This is so for all numbers, the groups being no more than 64 bits can count.
pub project_groups_page :
    (now : DateTime) (snapshots : Snapshots) (query : ToolSessionProjectGroupsQuery)
    (groups : List ProjectSessionGroup) (result : ToolSessionProjectGroupPage)
    → sorted_groups now snapshots query ≡ some groups
    → length groups ≤ 2 ^ 64 - 1
    → project_groups now snapshots query ≡ ok (some result)
    → (result.page ≡ unwrap_or query.page 1)
      × (result.page_size ≡ min (unwrap_or query.page_size 20) 100)
      × (0 < result.page)
      × (0 < result.page_size)
      × (result.total ≡ length groups)
      × ((i : ℕ)
          → first? (skip i result.list) ≡ (
              if ltb i result.page_size
              then first? (skip ((result.page - 1) * result.page_size + i) groups)
              else none))
unfolding project_groups capped_page capped_page_size page_of
project_groups_page now snapshots query groups result made few h =
    let page = unwrap_or query.page 1 in
    let asked_size = unwrap_or query.page_size 20 in
    elim (Bool-cases (page == 0)) [
      | inl e ↦ absurd (ground (arith, e, h))
      | inr e ↦ elim (Bool-cases (asked_size == 0)) [
        | inl g ↦ absurd (ground (arith, e, g, h))
        | inr g ↦
            let size = min asked_size 100 in
            let whole : ToolSessionProjectGroupPage = record {
              list = take size (skip (page_start page size) groups);
              page = page;
              page_size = size;
              total = length groups;
            } in
            let q : whole ≡ result = ground (arith, e, g, made, h) in
            subst IsPage q (
              refl,
              refl,
              positive page e,
              omega (arith, positive asked_size g),
              refl,
              λ i.
                  first-take i size (skip (page_start page size) groups)
                  ∙ ap (λ (xs : List ProjectSessionGroup). if ltb i size then first? xs else none)
                      (skip-skip i (page_start page size) groups
                        ∙ skip-page_start page size i groups few),
            )
      ]
    ]
  where
    IsPage : ToolSessionProjectGroupPage → Type 0
    IsPage result =
        (result.page ≡ unwrap_or query.page 1)
        × (result.page_size ≡ min (unwrap_or query.page_size 20) 100)
        × (0 < result.page)
        × (0 < result.page_size)
        × (result.total ≡ length groups)
        × ((i : ℕ)
            → first? (skip i result.list) ≡ (
                if ltb i result.page_size
                then first? (skip ((result.page - 1) * result.page_size + i) groups)
                else none))
