-- ===== src/Leads/Calls.antt =====
-- Sequences of calls on leads, in the order in which their transactions commit.
use alsm_web_be.Base.{
  ℕ, true, false, ◌≡◌, refl, ap, Option, none, some, List, [], ◌∷◌, ◌++◌, String, lookup,
  Bool-cases, Option-cases, inl, inr, str_eq, str_eq_iff, lookup-insert_self,
}
use alsm_web_be.Leads.Types.{LeadStatus, PhoneCall, Lead, Leads, ok, raise, LeadError}
use alsm_web_be.Leads.Repository.{with_call}
use alsm_web_be.Leads.Status.{update_lead_status}
use alsm_web_be.Leads.PhoneCalls.{
  CallResult, find_call, status_after_call, replay, write_call, NormalizedCall, LogPhoneCall,
  log_phone_call,
}
use alsm_web_be.Leads.Steps.{is_once, IsForward}
use alsm_web_be.Leads.Moves.{update_lead_status-IsForward}
use alsm_web_be.Leads.Logging.{
  log_phone_call-IsForward, replay_leads, write_call_known, write_call_fresh, write_call_missing,
}

pub data Call : Type 0 where
  updates : ℕ → Option ℕ → Option LeadStatus → Option String → Call
  logs : ℕ → ℕ → Option ℕ → LogPhoneCall → Option ℕ → String → Option String → Call

module _ (fingerprint_of : ℕ → NormalizedCall → String) where
  unfoldable pub after : Call → Leads → Leads
  after (Call.updates now id status notes) leads = (update_lead_status now id status notes leads).1
  after (Call.logs now call_id id i actor email request_id) leads =
      (log_phone_call fingerprint_of now call_id id i actor email request_id leads).1

  unfoldable pub after_all : List Call → Leads → Leads
  unfolding after
  after_all [] leads = leads
  after_all (c ∷ cs) leads = after_all cs (after c leads)

  -- A change of status or a logged phone call, with any input and any result, leaves every lead
  -- there, moves its status only as the table of transitions allows, keeps every phone call that
  -- was found under a request id, and gives no two phone calls of a lead the same request id if
  -- there were none before.
  pub after-IsForward : (c : Call) (leads : Leads) → IsForward leads (after c leads)
  unfolding after
  after-IsForward (Call.updates now id status notes) leads =
      update_lead_status-IsForward now id status notes leads
  after-IsForward (Call.logs now call_id id i actor email request_id) leads =
      log_phone_call-IsForward fingerprint_of now call_id id i actor email request_id leads

  -- The lead after a sequence.
  pub record IsGrown (id : ℕ) (l : Lead) (leads : Leads) : Type 0 where
    pub lead : Lead
    pub there : lookup id leads ≡ some lead
    pub kept :
        (r : String) (c : PhoneCall)
        → find_call r l.phone_calls ≡ some c
        → find_call r lead.phone_calls ≡ some c
    pub once : is_once l.phone_calls ≡ true → is_once lead.phone_calls ≡ true

  -- After any sequence of changes of status and logged phone calls a lead is still there, every
  -- phone call that was found under its request id is found there unchanged, and no two phone
  -- calls have the same request id if that was so before.
  pub after_all-IsGrown :
      (cs : List Call) (id : ℕ) (l : Lead) (leads : Leads)
      → lookup id leads ≡ some l
      → IsGrown id l (after_all cs leads)
  unfolding after_all
  after_all-IsGrown [] id l leads there = record {
    lead = l;
    there = there;
    kept = λ r c h. h;
    once = λ h. h;
  }
  after_all-IsGrown (c ∷ cs) id l leads there =
      let (m, here, s) = after-IsForward c leads id l there in
      let rest = after_all-IsGrown cs id m (after c leads) here in
      record {
        lead = rest.lead;
        there = rest.there;
        kept = λ r d h. rest.kept r d (s.kept r d h);
        once = λ h. rest.once (s.once h);
      }

find_call_last :
    (r : String) (cs : List PhoneCall) (c : PhoneCall)
    → find_call r cs ≡ none
    → str_eq c.request_id r ≡ true
    → find_call r (cs ++ c ∷ []) ≡ some c
unfolding find_call
find_call_last r [] c h same = rw same
find_call_last r (d ∷ cs) c h same = elim (Bool-cases (str_eq d.request_id r)) [
  | inl first ↦ let bad : some d ≡ none = rw first at h in cc
  | inr other ↦ rw other (find_call_last r cs c (rw other at h) same)
]

-- The call `c` stands under its request id, with this fingerprint.
pub record IsLogged (id : ℕ) (request_id fingerprint : String) (c : PhoneCall) (leads : Leads)
    : Type 0 where
  pub lead : Lead
  pub there : lookup id leads ≡ some lead
  pub known : find_call request_id lead.phone_calls ≡ some c
  pub matching : str_eq c.request_fingerprint fingerprint ≡ true

known_replay :
    (id : ℕ) (request_id fingerprint : String) (c : PhoneCall) (l : Lead) (leads : Leads)
    (r : CallResult)
    → lookup id leads ≡ some l
    → find_call request_id l.phone_calls ≡ some c
    → (replay fingerprint c l leads).0 ≡ ok r
    → IsLogged id request_id fingerprint r.call leads
known_replay id request_id fingerprint c l leads r there known e =
    elim (Bool-cases (str_eq c.request_fingerprint fingerprint)) [
      | inl same ↦
          let known_ok : ok (record { call = c; lead = l; replayed = true }) ≡ ok r =
            rw same at e in
          let eq : record { call = c; lead = l; replayed = true } ≡ r = cc in
          let call_eq : c ≡ r.call = ap (λ x. x.call) eq in
          rw (← call_eq) (record { lead = l; there = there; known = known; matching = same })
      | inr other ↦ let bad : raise LeadError.idempotency_key_reused ≡ ok r = rw other at e in cc
    ]

pub write_call-IsLogged :
    (id : ℕ) (call : PhoneCall) (leads : Leads) (r : CallResult)
    → (write_call id call.request_id call.request_fingerprint call leads).0 ≡ ok r
    → IsLogged id call.request_id call.request_fingerprint r.call
        (write_call id call.request_id call.request_fingerprint call leads).1
unfolding with_call
write_call-IsLogged id call leads r e = elim (Option-cases (lookup id leads)) [
  | inl missing ↦
      let bad : raise LeadError.lead_not_found ≡ ok r =
        rw (write_call_missing id call.request_fingerprint call leads missing) at e in
      cc
  | inr (l, there) ↦ elim (Option-cases (find_call call.request_id l.phone_calls)) [
    | inr (c, known) ↦
        let same = write_call_known id call.request_fingerprint call leads l c there known in
        rw (same, replay_leads call.request_fingerprint c l leads)
          (known_replay id call.request_id call.request_fingerprint c l leads r there known
            (rw same at e))
    | inl fresh ↦
        let made = write_call_fresh id call.request_fingerprint call leads l there fresh in
        let m : Lead = with_call call (status_after_call l.status) l in
        let known_ok : ok (record { call = call; lead = m; replayed = false }) ≡ ok r =
          rw made at e in
        let eq : record { call = call; lead = m; replayed = false } ≡ r = cc in
        let call_eq : call ≡ r.call = ap (λ x. x.call) eq in
        rw (made, ← call_eq)
          (record {
            lead = m;
            there = lookup-insert_self id m leads;
            known =
                find_call_last call.request_id l.phone_calls call fresh
                  ((str_eq_iff call.request_id call.request_id).1 refl);
            matching = (str_eq_iff call.request_fingerprint call.request_fingerprint).1 refl;
          })
  ]
]
