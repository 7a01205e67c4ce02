-- ===== src/NextInstance/Drafts.antt =====
-- The copy of a repeating task can be saved.
use taskologic.Prelude.{
  ℕ, ◌≡◌, ◌↔◌, refl, inl, inr, Option, none, some, false, List, [], ◌∷◌, arith,
}
use taskologic.Prelude.Tests.{Bool-cases}
use taskologic.Prelude.Lists.{keep}
use taskologic.Prelude.Result.{ok, ◌>>◌, >>_iff}
use taskologic.Ids.{Uid}
use taskologic.Time.{DateTime, TimeDelta}
use taskologic.Board.{Board, is_member}
use taskologic.Task.{
  Task, TaskDraft, draft, validate_title, check_assignees, check_reminders, check_dates,
  check_repeat, validate_print_rules, validate_draft,
}
use taskologic.NextInstance.{next_instance, due_after, dated, start_rule_of, due_rule_of}

-- The checks of a draft, each by itself.
pub validate_draft_iff :
    (d : TaskDraft) (b : Board)
    → (validate_draft d b ≡ ok tt) ↔ (
        (validate_title d.title ≡ ok tt)
        × (check_assignees b d.assignees ≡ ok tt)
        × (check_reminders d ≡ ok tt)
        × (check_dates d.start_at d.due_at ≡ ok tt)
        × (check_repeat d.repeat ≡ ok tt)
        × (validate_print_rules d.print_rules b false ≡ ok tt))
unfolding validate_draft
validate_draft_iff d b =
    let rules = validate_print_rules d.print_rules b false in
    let e5 = >>_iff (check_repeat d.repeat) rules in
    let e4 = >>_iff (check_dates d.start_at d.due_at) (check_repeat d.repeat >> rules) in
    let e3 =
      >>_iff (check_reminders d)
        (check_dates d.start_at d.due_at >> (check_repeat d.repeat >> rules)) in
    let e2 = >>_iff (check_assignees b d.assignees) (
      check_reminders d >> (check_dates d.start_at d.due_at >> (check_repeat d.repeat >> rules))) in
    let e1 = >>_iff (validate_title d.title) (
      check_assignees b d.assignees
      >> (check_reminders d
          >> (check_dates d.start_at d.due_at >> (check_repeat d.repeat >> rules)))) in
    (
      λ h.
          let (h1, k1) = e1.0 h in
          let (h2, k2) = e2.0 k1 in
          let (h3, k3) = e3.0 k2 in
          let (h4, k4) = e4.0 k3 in let (h5, h6) = e5.0 k4 in (h1, h2, h3, h4, h5, h6),
      λ (h1, h2, h3, h4, h5, h6). e1.1 (h1, e2.1 (h2, e3.1 (h3, e4.1 (h4, e5.1 (h5, h6))))),
    )

check_assignees-keep :
    (b : Board) (uids : List Uid) → check_assignees b (keep (λ u. is_member b u) uids) ≡ ok tt
unfolding check_assignees
check_assignees-keep b [] = refl
check_assignees-keep b (u ∷ uids) = elim (Bool-cases (is_member b u)) [
  | inl e ↦ rw (e, e) (check_assignees-keep b uids)
  | inr e ↦ rw e (check_assignees-keep b uids)
]

module _ (try_minutes : ℕ → Option TimeDelta)
    (checked_add_signed : DateTime → TimeDelta → Option DateTime) where
  check_dates-due_after :
      (start due : Option DateTime)
      → check_dates start (due_after try_minutes checked_add_signed start due) ≡ ok tt
  check_dates-due_after none none = refl
  check_dates-due_after none (some due) = refl
  check_dates-due_after (some start) none = refl
  check_dates-due_after (some start) (some due) = ground arith

  -- When a repeating task could be saved as it is on some board, its next copy can be saved on its
  -- own board, whose members may have changed, as long as the named people of its print rules are
  -- still on the board.
  pub validate_draft-next_instance :
      (t : Task) (before b : Board) (fired_at : DateTime)
      → validate_draft (draft t) before ≡ ok tt
      → validate_print_rules t.print_rules b false ≡ ok tt
      → validate_draft (next_instance try_minutes checked_add_signed t b fired_at) b ≡ ok tt
  unfolding draft next_instance
  validate_draft-next_instance t before b fired_at h p =
      let (h1, h2, h3, h4, h5, h6) = (validate_draft_iff (draft t) before).0 h in
      let start =
        dated try_minutes checked_add_signed (start_rule_of try_minutes checked_add_signed t.repeat)
          fired_at in
      let due =
        dated try_minutes checked_add_signed (due_rule_of try_minutes checked_add_signed t.repeat)
          fired_at in
      (validate_draft_iff (next_instance try_minutes checked_add_signed t b fired_at) b).1
        (h1, check_assignees-keep b t.assignees, h3, check_dates-due_after start due, h5, p)
