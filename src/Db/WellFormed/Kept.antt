-- ===== src/Db/WellFormed/Kept.antt =====
-- Every statement of db_handler.c keeps the tables well formed.
use school_meals.Base.{
  ◌≡◌, refl, inl, inr, false, not, ◌&&◌, List, [], ◌∷◌, ◌++◌, map, keep, any, All, All-append,
  arith, length, ◌<◌, Bool-cases,
}
use school_meals.CString.{Bytes, bytes_eq}
use school_meals.Db.Tables.{
  UserRow, ChildRow, Tables, has_id, is_pair, refers_to, updated, insert_user, update_users,
  delete_users, insert_child, delete_children,
}
use school_meals.Db.WellFormed.{IsRow, IsLinked, WellFormed}
use school_meals.Db.WellFormed.Keys.{
  any-append, any-map-updated, any-keep_other, Unique-append, Unique-keep, Unique-map,
  UniquePairs-append, UniquePairs-keep, All-keep,
}

All-IsLinked :
    (us vs : List UserRow) (cs : List ChildRow)
    → ((c : ChildRow) → IsLinked us c → IsLinked vs c)
    → All (IsLinked us) cs
    → All (IsLinked vs) cs
All-IsLinked us vs [] f h = tt
All-IsLinked us vs (c ∷ cs) f (hc, h) = (f c hc, All-IsLinked us vs cs f h)

pub insert_user-WellFormed :
    (u : UserRow) (t : Tables) → IsRow u → WellFormed t → WellFormed (insert_user u t).1
unfolding insert_user
insert_user-WellFormed u t hu h = elim (Bool-cases (any (has_id u.id) t.users)) [
  | inl old ↦ rw (insert_user, old) h
  | inr new ↦
      rw (insert_user, new)
        (record {
          ids = Unique-append t.users u h.ids new;
          rows = All-append IsRow t.users (u ∷ []) h.rows (hu, tt);
          links =
              All-IsLinked t.users (t.users ++ u ∷ []) t.children
                (λ c l. ground (
                  arith,
                  any-append {0} (has_id c.child_id) t.users (u ∷ []),
                  any-append {0} (has_id c.parent_id) t.users (u ∷ []),
                ))
                h.links;
          pairs = h.pairs;
        })
]

updated-IsRow :
    (pw edu_office school_name id : Bytes) (us : List UserRow)
    → length edu_office < 49
    → length school_name < 49
    → All IsRow us
    → All IsRow (map (updated pw edu_office school_name id) us)
updated-IsRow pw o s id [] ho hs h = tt
updated-IsRow pw o s id (u ∷ us) ho hs (hu, h) = (
  record {
    role = ground (arith, hu.role);
    edu_office = elim (Bool-cases (bytes_eq u.id id)) [
      | inl b ↦ rw b ho
      | inr b ↦ rw b hu.edu_office
    ];
    school_name = elim (Bool-cases (bytes_eq u.id id)) [
      | inl b ↦ rw b hs
      | inr b ↦ rw b hu.school_name
    ];
  },
  updated-IsRow pw o s id us ho hs h,
)

pub update_users-WellFormed :
    (pw edu_office school_name id : Bytes) (t : Tables)
    → length edu_office < 49
    → length school_name < 49
    → WellFormed t
    → WellFormed (update_users pw edu_office school_name id t).1
unfolding update_users
update_users-WellFormed pw o s id t ho hs h = record {
  ids = Unique-map pw o s id t.users h.ids;
  rows = updated-IsRow pw o s id t.users ho hs h.rows;
  links =
      All-IsLinked t.users _ t.children
        (λ c l. ground (
          arith,
          any-map-updated c.child_id pw o s id t.users,
          any-map-updated c.parent_id pw o s id t.users,
        ))
        h.links;
  pairs = h.pairs;
}

-- A row that nothing refers to can go.
unreferred :
    (id : Bytes) (us : List UserRow) (cs : List ChildRow)
    → any (refers_to id) cs ≡ false
    → All (IsLinked us) cs
    → All (IsLinked (keep (λ u. not (has_id id u)) us)) cs
unreferred id us [] h l = tt
unreferred id us (c ∷ cs) h (lc, l) = (
  (
    rw (any-keep_other c.child_id id us (ground arith)) lc.0,
    rw (any-keep_other c.parent_id id us (ground arith)) lc.1,
  ),
  unreferred id us cs (ground arith) l,
)

-- Where no row has the id, no row goes.
keep-absent :
    (id : Bytes) (us : List UserRow)
    → any (has_id id) us ≡ false
    → keep (λ u. not (has_id id u)) us ≡ us
keep-absent id [] h = refl
keep-absent id (u ∷ us) h = ground (arith, keep-absent id us)

delete_links :
    (id : Bytes) (us : List UserRow) (cs : List ChildRow)
    → (any (has_id id) us && any (refers_to id) cs) ≡ false
    → All (IsLinked us) cs
    → All (IsLinked (keep (λ u. not (has_id id u)) us)) cs
delete_links id us cs h l = elim (Bool-cases (any (refers_to id) cs)) [
  | inl r ↦ rw (keep-absent id us (ground arith)) l
  | inr r ↦ unreferred id us cs r l
]

pub delete_users-WellFormed :
    (id : Bytes) (t : Tables) → WellFormed t → WellFormed (delete_users id t).1
unfolding delete_users
delete_users-WellFormed id t h =
    elim (Bool-cases (any (has_id id) t.users && any (refers_to id) t.children)) [
      | inl kept ↦ rw (delete_users, kept) h
      | inr gone ↦
          rw (delete_users, gone)
            (record {
              ids = Unique-keep _ t.users h.ids;
              rows = All-keep IsRow _ t.users h.rows;
              links = delete_links id t.users t.children gone h.links;
              pairs = h.pairs;
            })
    ]

pub insert_child-WellFormed :
    (child_id parent_id : Bytes) (t : Tables)
    → WellFormed t
    → WellFormed (insert_child child_id parent_id t).1
unfolding insert_child
insert_child-WellFormed c p t h =
    elim (Bool-cases
      (any (has_id c) t.users && any (has_id p) t.users && not (any (is_pair c p) t.children))) [
        | inl new ↦
            rw (insert_child, new)
              (record {
                ids = h.ids;
                rows = h.rows;
                links =
                    All-append (IsLinked t.users) t.children _ h.links
                      ((ground arith, ground arith), tt);
                pairs = UniquePairs-append t.children _ h.pairs (ground arith);
              })
        | inr refused ↦ rw (insert_child, refused) h
      ]

pub delete_children-WellFormed :
    (child_id parent_id : Bytes) (t : Tables)
    → WellFormed t
    → WellFormed (delete_children child_id parent_id t).1
unfolding delete_children
delete_children-WellFormed c p t h = record {
  ids = h.ids;
  rows = h.rows;
  links = All-keep (IsLinked t.users) _ t.children h.links;
  pairs = UniquePairs-keep _ t.children h.pairs;
}
