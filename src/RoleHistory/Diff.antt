-- ===== src/RoleHistory/Diff.antt =====
-- `diff_role_entries` is complete and says nothing twice.
use vb_api.Calendar.{Date, date_eq}
use vb_api.Prelude.{
  ℕ, text_eq, ◌≤◌, ◌≡◌, refl, ap, ◌∙◌, true, Option, none, some, List, [], ◌∷◌, ◌++◌, length, arith,
  Option-cases, inl, inr, find-some, if◌then◌else◌,
}
use vb_api.RoleHistory.{
  RoleEntry, RoleChange, period_changed, same_end, same_key, dict_onto, lookup, revocation, grant,
  period_change, per_entry, revocation_of, grant_of, period_change_of, diff_role_entries,
}
use vb_api.RoleHistory.Dict.{
  last_of, lookup-dict, same_key-left, lookup-congr, dict_onto-UniqueKeys,
}
use vb_api.RoleHistory.Changes.{
  changes_for, found, filter-append, Keyed, changes_for-per_entry, sort_changes-single,
}

-- A date, if any, in numbers.
abbrev pub date_numbers : Option Date → List ℕ
date_numbers none = []
date_numbers (some d) = d.year ∷ d.month ∷ d.day ∷ []

same_end-numbers : (a b : Option Date) → same_end a b ≡ text_eq (date_numbers a) (date_numbers b)
unfolding same_end date_eq text_eq
same_end-numbers none none = refl
same_end-numbers none (some b) = refl
same_end-numbers (some a) none = refl
same_end-numbers (some a) (some b) = ground arith

-- What has happened to a key: the entry before, if any, and the entry after, if any.
abbrev pub expected : Option RoleEntry → Option RoleEntry → List RoleChange
expected none none = []
expected none (some f) = grant f ∷ []
expected (some e) none = revocation e ∷ []
expected (some e) (some f) =
    if text_eq (date_numbers e.enddate) (date_numbers f.enddate)
    then []
    else record { action = period_changed; entry = f; previous_enddate = e.enddate } ∷ []

length-expected : (o p : Option RoleEntry) → length (expected o p) ≤ 1
length-expected none none = omega arith
length-expected none (some f) = omega arith
length-expected (some e) none = omega arith
length-expected (some e) (some f) = ground arith

lookup-same_key :
    (k : RoleEntry) (ds : List RoleEntry) (e : RoleEntry)
    → lookup k ds ≡ some e
    → same_key e k ≡ true
unfolding lookup
lookup-same_key k ds e h = find-some (λ (d : RoleEntry). same_key d k) ds e h

revocation_of-Keyed : (new : List RoleEntry) (k : RoleEntry) → Keyed (revocation_of new) k
unfolding revocation_of
revocation_of-Keyed new k e = ground arith

grant_of-Keyed : (old : List RoleEntry) (k : RoleEntry) → Keyed (grant_of old) k
unfolding grant_of
grant_of-Keyed old k e = ground arith

period_change_of-Keyed : (new : List RoleEntry) (k : RoleEntry) → Keyed (period_change_of new) k
unfolding period_change_of period_change
period_change_of-Keyed new k e = elim (Option-cases (lookup e new)) [
  | inl gone ↦ rw gone (ground arith)
  | inr (f, there) ↦
      let same = same_key-left f e k (lookup-same_key e new f there) in
      rw there (ground (arith, same))
]

-- The three comprehensions together, for one key.
together :
    (k : RoleEntry) (old new : List RoleEntry)
    → found (revocation_of new) (lookup k old)
        ++ found (grant_of old) (lookup k new)
        ++ found (period_change_of new) (lookup k old)
      ≡ expected (lookup k old) (lookup k new)
unfolding revocation_of grant_of period_change_of period_change
together k old new = elim (Option-cases (lookup k old)) [
  | inl before ↦ elim (Option-cases (lookup k new)) [
    | inl after ↦ rw before (rw after refl)
    | inr (f, after) ↦
        let own = lookup-congr f k old (lookup-same_key k new f after) ∙ before in
        rw before (rw after (rw own refl))
  ]
  | inr (e, before) ↦
      let theirs = lookup-congr e k new (lookup-same_key k old e before) in
      elim (Option-cases (lookup k new)) [
        | inl after ↦ rw before (rw after (rw (theirs ∙ after) refl))
        | inr (f, after) ↦
            let own = lookup-congr f k old (lookup-same_key k new f after) ∙ before in
            rw before (
              rw after
                (rw (theirs ∙ after) (rw own (rw (same_end-numbers e.enddate f.enddate) refl))))
      ]
]

-- For the key of any entry, role and start date, `diff_role_entries` makes exactly one change if the
-- key is gone (a revocation), new (a grant) or has another end date (a period change), with the
-- entry concerned, and none otherwise. Of several entries with one key the last one counts.
pub diff_role_entries_lem :
    (before after : List RoleEntry) (k : RoleEntry)
    → changes_for k (diff_role_entries before after) ≡ expected (last_of k before) (last_of k after)
unfolding diff_role_entries
diff_role_entries_lem before after k =
    let old = dict_onto [] before in
    let new = dict_onto [] after in
    let gone = per_entry (revocation_of new) old in
    let came = per_entry (grant_of old) new in
    let stayed = per_entry (period_change_of new) old in
    let old_unique = dict_onto-UniqueKeys [] before tt in
    let new_unique = dict_onto-UniqueKeys [] after tt in
    let parts =
      filter-append k (gone ++ came) stayed
      ∙ ap (λ cs. cs ++ changes_for k stayed) (filter-append k gone came)
      ∙ rw
          (
            changes_for-per_entry (revocation_of new) k old (revocation_of-Keyed new k) old_unique,
            changes_for-per_entry (grant_of old) k new (grant_of-Keyed old k) new_unique,
            changes_for-per_entry (period_change_of new) k old (period_change_of-Keyed new k)
                old_unique,
          )
          (together k old new)
      ∙ ap (λ o. expected o (lookup k new)) (lookup-dict k before)
      ∙ ap (expected (last_of k before)) (lookup-dict k after) in
    sort_changes-single k (gone ++ came ++ stayed)
      (rw parts (length-expected (last_of k before) (last_of k after)))
    ∙ parts
