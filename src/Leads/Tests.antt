-- ===== src/Leads/Tests.antt =====
-- The theorems on leads at concrete ones.
use alsm_web_be.Base.{ℕ, true, ◌≡◌, refl, none, some, List, [], ◌∷◌, String, lookup, trim}
use alsm_web_be.Leads.Types.{LeadStatus, CallOutcome, Lead, Leads, Result, ok, raise, PhoneCall}
use alsm_web_be.Leads.PhoneCalls.{
  CallResult, LogPhoneCall, NormalizedCall, log_phone_call, normalize_call,
}
use alsm_web_be.Leads.Steps.{IsForward}
use alsm_web_be.Leads.Calls.{Call, after, after_all, after-IsForward, IsGrown, after_all-IsGrown}
use alsm_web_be.Leads.Replays.{log_phone_call-log_phone_call}

abbrev lead : Lead
lead = record {
  status = LeadStatus.new;
  notes = none;
  last_contacted_at = none;
  next_follow_up_at = none;
  phone_calls = [];
  updated_at = 0;
}

abbrev leads : Leads
leads = (1, lead) ∷ []

abbrev input : LogPhoneCall
input = record {
  outcome = some CallOutcome.connected;
  duration_minutes = 12;
  summary = " Wants a demo ";
  notes = none;
  follow_up_at = some (some 9000);
}

abbrev request : String
request = "01234567-89ab-4def-8123-456789abcdef"

-- The summary is its own fingerprint here.
abbrev print : ℕ → NormalizedCall → String
print user_id n = n.summary

abbrev first : Result CallResult × Leads
first = log_phone_call print 1000 50 (some 1) input (some 2) "a@b.c" (some request) leads

abbrev result_of : Result CallResult → CallResult → CallResult
result_of (ok r) d = r
result_of (raise e) d = d

abbrev no_call : PhoneCall
no_call = record {
  id = 0;
  request_id = "";
  request_fingerprint = "";
  duration_minutes = 0;
  outcome = CallOutcome.connected;
  summary = "";
  notes = none;
  follow_up_at = none;
  performed_by_user_id = 0;
  performed_by_email = "";
  created_at = 0;
}

abbrev answer : CallResult
answer = result_of first.0 (record { call = no_call; lead = lead; replayed = true })

first_runs : first.0 ≡ ok answer
unfolding log_phone_call trim lookup
first_runs = refl

input_normal : normalize_call 2000 input ≡ normalize_call 1000 input
unfolding normalize_call
input_normal = refl

abbrev others : List Call
others =
    Call.updates 1500 (some 1) (some LeadStatus.qualified) (some "ok")
    ∷ Call.updates 1600 (some 1) (some LeadStatus.won) none
    ∷ []

after-IsForward_example :
    IsForward leads
      (after print (Call.updates 1500 (some 1) (some LeadStatus.qualified) none) leads)
after-IsForward_example =
    after-IsForward print (Call.updates 1500 (some 1) (some LeadStatus.qualified) none) leads

lead_there : lookup 1 leads ≡ some lead
unfolding lookup
lead_there = refl

after_all-IsGrown_example : IsGrown print 1 lead (after_all print others leads)
after_all-IsGrown_example = after_all-IsGrown print others 1 lead leads lead_there

log_phone_call-log_phone_call_example :
    (m : Lead) × (log_phone_call print 2000 51
        (some 1)
        input
        (some 2)
        "a@b.c"
        (some request)
        (after_all print others first.1)
      ≡ (
        ok (record { call = answer.call; lead = m; replayed = true }),
        after_all print others first.1,
      ))
log_phone_call-log_phone_call_example =
    log_phone_call-log_phone_call print 1000 50 1 2 input "a@b.c" request leads answer others 2000
      51 first_runs input_normal
