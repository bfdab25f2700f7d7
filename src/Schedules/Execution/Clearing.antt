-- ===== src/Schedules/Execution/Clearing.antt =====
-- What `clearDirectory` deletes.
use agapornis_api.Common.{
  String, false, Option, List, [], ◌∷◌, ◌≡◌, refl, ◌⊎◌, inl, inr, arith, Bool-cases, Option-cases,
  Result-cases, ok, err, any, All, map, ltb, length,
}
use agapornis_api.Common.Text.{text_or, join}
use agapornis_api.Schedules.Config.{ScheduleError, check_target_path, max_clear_items}
use agapornis_api.Schedules.Execution.{
  Agent, Call, deletes_item, lists_directory, Reply, clear_directory_of, clear_listed, delete_items,
  is_unsafe_name, is_rejected, deletion_failure,
}

-- A call that deletes nothing, or deletes an item with a safe name right in the directory.
abbrev pub DeletesIn : String → Call → Type 0
DeletesIn dir (deletes_item node server path) =
    (name : String) × (path ≡ join "/" (dir ∷ name ∷ [])) × (is_unsafe_name name ≡ false)
DeletesIn dir _ = Unit

delete_items-safe :
    (agent : Agent) (node server dir : String) (names : List String) (calls : List Call)
    → any is_unsafe_name names ≡ false
    → All (DeletesIn dir) calls
    → All (DeletesIn dir) (delete_items agent node server dir names calls).1
unfolding delete_items
delete_items-safe agent node server dir [] calls safe h = h
delete_items-safe agent node server dir (name ∷ names) calls safe h =
    let call = deletes_item node server (join "/" (dir ∷ name ∷ [])) in
    let mine : is_unsafe_name name ≡ false = ground arith in
    let others : any is_unsafe_name names ≡ false = ground arith in
    let more : All (DeletesIn dir) (call ∷ calls) = ((name, refl, mine), h) in
    elim (Option-cases (deletion_failure (agent calls call))) [
      | inl fine ↦
          rw (fine, delete_items)
            (delete_items-safe agent node server dir names (call ∷ calls) others more)
      | inr (e, failed) ↦ rw (failed, delete_items) more
    ]

clear_listed-safe :
    (agent : Agent) (node server dir : String) (listing : Reply) (calls : List Call)
    → All (DeletesIn dir) calls
    → All (DeletesIn dir) (clear_listed agent node server dir listing calls).1
unfolding clear_listed
clear_listed-safe agent node server dir listing calls h =
    elim (Bool-cases (is_rejected listing.success)) [
      | inl refused ↦ rw (refused, clear_listed) h
      | inr listed ↦ elim (Option-cases listing.items) [
        | inl none' ↦ rw (listed, none', clear_listed) h
        | inr (items, there) ↦
            rw (listed, there, clear_listed)
              (elim (Bool-cases (ltb max_clear_items (length items))) [
                | inl many ↦ rw many h
                | inr few ↦
                    elim (Bool-cases
                      (any is_unsafe_name (map (λ (i : Option String). text_or i "") items))) [
                        | inl odd ↦ rw (few, odd) h
                        | inr fine ↦
                            rw (few, fine)
                              (delete_items-safe agent node server dir
                                (map (λ (i : Option String). text_or i "") items) calls fine h)
                      ]
              ])
      ]
    ]

-- A run that clears a directory calls nothing if its target path is refused, and otherwise deletes
-- nothing but items of the accepted directory: each is named by its path and a name that is not
-- empty, `.` or `..` and has no slash, backslash or NUL, whatever the agent lists and answers.
pub clear_directory-confined :
    (agent : Agent) (node server : String) (target : Option String)
    → let calls = (clear_directory_of agent node server target []).1 in
      ((e : ScheduleError) × (check_target_path target ≡ err e) × (calls ≡ []))
      ⊎ ((dir : String) × (check_target_path target ≡ ok dir) × All (DeletesIn dir) calls)
unfolding clear_directory_of
clear_directory-confined agent node server target = elim (Result-cases (check_target_path target)) [
  | inr (e, refused) ↦ inl (e, refused, rw (refused, clear_directory_of))
  | inl (dir, accepted) ↦ inr (
    dir,
    accepted,
    rw (accepted, clear_directory_of)
        (let listing = agent [] (lists_directory node server dir) in
          elim (Bool-cases listing.throws) [
            | inl thrown ↦ rw thrown (tt, tt)
            | inr answered ↦ rw answered (
                clear_listed-safe agent node server dir listing
                  (lists_directory node server dir ∷ []) (tt, tt))
          ]),
  )
]
