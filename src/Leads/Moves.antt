-- ===== src/Leads/Moves.antt =====
-- What the status service does to the stored leads.
use alsm_web_be.Base.{
  ℕ, true, not, ◌≡◌, refl, Option, none, some, String, trim, lookup, Bool-cases, Option-cases, inl,
  inr, str_eq,
}
use alsm_web_be.Leads.Types.{
  LeadStatus, same_status, is_allowed_lead_status_transition, Lead, Leads,
}
use alsm_web_be.Leads.Repository.{UpdateOptions, with_status, update_status}
use alsm_web_be.Leads.Status.{
  only_notes, moved, noted, old_notes, keep_status, change_status, update_lead_status,
  transition_options,
}
use alsm_web_be.Leads.Steps.{IsStep-with_status, IsForward, IsForward-self, IsForward-insert}

update_status-IsForward :
    (now id : ℕ) (status : LeadStatus) (options : UpdateOptions) (l : Lead) (leads : Leads)
    → lookup id leads ≡ some l
    → is_allowed_lead_status_transition l.status status ≡ true
    → IsForward leads (update_status now id status options leads).1
unfolding update_status
update_status-IsForward now id status options l leads there h =
    rw (there, update_status)
      (IsForward-insert id l (with_status now status options l) leads there
        (IsStep-with_status now status options l h))

moved_leads : (r : Option Lead × Leads) → (moved r).1 ≡ r.1
moved_leads (none, leads) = refl
moved_leads (some l, leads) = refl

noted_leads : (l : Lead) (r : Option Lead × Leads) → (noted l r).1 ≡ r.1
noted_leads l (o, leads) = refl

same_allowed :
    (a b : LeadStatus) → same_status a b ≡ true → is_allowed_lead_status_transition a b ≡ true
unfolding is_allowed_lead_status_transition
same_allowed a b h = rw h

keep_status-IsForward :
    (now id : ℕ) (status : LeadStatus) (notes : Option String) (l : Lead) (leads : Leads)
    → lookup id leads ≡ some l
    → same_status l.status status ≡ true
    → IsForward leads (keep_status now id status notes l leads).1
unfolding keep_status
keep_status-IsForward now id status none l leads there same = IsForward-self leads
keep_status-IsForward now id status (some notes) l leads there same =
    elim (Bool-cases (not (str_eq (trim notes) (old_notes l.notes)))) [
      | inl changed ↦
          rw (changed, noted_leads l (update_status now id status (only_notes (trim notes)) leads))
            (update_status-IsForward now id status (only_notes (trim notes)) l leads there
              (same_allowed l.status status same))
      | inr old ↦ rw old (IsForward-self leads)
    ]

change_status-IsForward :
    (now id : ℕ) (status : LeadStatus) (notes : Option String) (l : Lead) (leads : Leads)
    → lookup id leads ≡ some l
    → IsForward leads (change_status now id status notes l leads).1
unfolding change_status
change_status-IsForward now id status notes l leads there =
    elim (Bool-cases (same_status l.status status)) [
      | inl same ↦
          rw (same, change_status) (keep_status-IsForward now id status notes l leads there same)
      | inr other ↦ elim (Bool-cases (is_allowed_lead_status_transition l.status status)) [
        | inl fine ↦
            rw
              (
                other,
                fine,
                change_status,
                moved_leads
                    (update_status now id status (transition_options now status notes l) leads),
              )
              (update_status-IsForward now id status (transition_options now status notes l) l leads
                there fine)
        | inr bad ↦ rw (other, bad, change_status) (IsForward-self leads)
      ]
    ]

pub update_lead_status-IsForward :
    (now : ℕ) (id : Option ℕ) (status : Option LeadStatus) (notes : Option String) (leads : Leads)
    → IsForward leads (update_lead_status now id status notes leads).1
unfolding update_lead_status
update_lead_status-IsForward now none status notes leads = IsForward-self leads
update_lead_status-IsForward now (some id) none notes leads = IsForward-self leads
update_lead_status-IsForward now (some id) (some status) notes leads =
    elim (Option-cases (lookup id leads)) [
      | inl missing ↦ rw (missing, update_lead_status) (IsForward-self leads)
      | inr (l, there) ↦
          rw (there, update_lead_status) (change_status-IsForward now id status notes l leads there)
    ]
