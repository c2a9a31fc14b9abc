-- ===== src/Leads/Status.antt =====
-- application/update-lead-status.service.ts. An id that is not 24 hexadecimal digits and a status
-- that is none of the list are `none`. The audit entry and the messages are left out. The
-- read and the write run with no other call in between, though they are not one transaction.
use alsm_web_be.Base.{
  ℕ, Bool, true, false, not, ◌&&◌, Option, none, some, String, str_eq, exists_value, lookup, trim,
  if◌then◌else◌,
}
use alsm_web_be.Leads.Types.{
  LeadStatus, same_status, is_allowed_lead_status_transition, Lead, Leads, LeadError, Result, ok,
  raise,
}
use alsm_web_be.Leads.Repository.{UpdateOptions, update_status}

pub record StatusResult : Type 0 where
  pub lead : Lead
  pub updated : Bool

abbrev pub old_notes : Option String → String
old_notes none = ""
old_notes (some notes) = notes

abbrev pub only_notes : String → UpdateOptions
only_notes notes = record { notes = some notes; last_contacted_at = none; next_follow_up_at = none }

abbrev trimmed : Option String → Option String
trimmed none = none
trimmed (some notes) = some (trim notes)

abbrev is_contacted : LeadStatus → Bool
is_contacted s = same_status s LeadStatus.contacted

unfoldable pub transition_options : ℕ → LeadStatus → Option String → Lead → UpdateOptions
transition_options now status notes l = record {
  notes = trimmed notes;
  last_contacted_at =
      if is_contacted status && not (exists_value l.last_contacted_at) then some now else none;
  next_follow_up_at = none;
}

abbrev or_lead : Option Lead → Lead → Lead
or_lead none l = l
or_lead (some u) l = u

abbrev pub noted : Lead → Option Lead × Leads → Result StatusResult × Leads
noted l (o, leads) = (ok (record { lead = or_lead o l; updated = true }), leads)

-- The status stays.
unfoldable pub keep_status :
    ℕ → ℕ → LeadStatus → Option String → Lead → Leads → Result StatusResult × Leads
unfolding update_status
keep_status now id status none l leads = (ok (record { lead = l; updated = false }), leads)
keep_status now id status (some notes) l leads =
    if not (str_eq (trim notes) (old_notes l.notes))
    then noted l (update_status now id status (only_notes (trim notes)) leads)
    else (ok (record { lead = l; updated = false }), leads)

abbrev pub moved : Option Lead × Leads → Result StatusResult × Leads
moved (none, leads) = (raise LeadError.lead_not_found, leads)
moved (some l, leads) = (ok (record { lead = l; updated = true }), leads)

unfoldable pub change_status :
    ℕ → ℕ → LeadStatus → Option String → Lead → Leads → Result StatusResult × Leads
unfolding keep_status transition_options
change_status now id status notes l leads =
    if same_status l.status status
    then keep_status now id status notes l leads
    else if not (is_allowed_lead_status_transition l.status status)
    then (raise LeadError.invalid_status_transition, leads)
    else moved (update_status now id status (transition_options now status notes l) leads)

unfoldable pub update_lead_status :
    ℕ → Option ℕ → Option LeadStatus → Option String → Leads → Result StatusResult × Leads
unfolding change_status
update_lead_status now none status notes leads = (raise LeadError.invalid_lead_id, leads)
update_lead_status now (some id) none notes leads = (raise LeadError.invalid_status, leads)
update_lead_status now (some id) (some status) notes leads = elim (lookup id leads) [
  | none ↦ (raise LeadError.lead_not_found, leads)
  | some l ↦ change_status now id status notes l leads
]
