-- ===== src/Checkpoint/RoundTrip.antt =====
-- packages/core/src/lifecycle/checkpoint-service.ts: which checkpoints can be read back.
use agent_town.Prelude.{
  String, Bool, true, false, ◌&&◌, ◌≡◌, refl, Option, none, some, inl, inr, List, [], ◌∷◌, leb,
  ◌==◌, string_eq, arith, Bool-cases,
}
use agent_town.Contract.Value.{get_field, nullable, str}
use agent_town.Contract.Agent.{
  SessionHandle, SessionCheckpoint, CompanyCheckpoint, PauseReason, user_requested,
  last_client_exited, shutdown,
}
use agent_town.Result.{Result, ok, guard, is_ok}
use agent_town.Checkpoint.Text.{
  is_name, is_handoff, is_nullable_name, read_string, read_nullable_string, read_handoff,
}
use agent_town.Checkpoint.Payload.{
  max_safe_integer, reason_text, handle_value, session_value, session_items, checkpoint_value,
  parse_handle, parse_session, parse_sessions, parse_reason, parse_sequence, parse_array,
  parse_company_checkpoint,
}

unfoldable pub is_readable_handle : SessionHandle → Bool
is_readable_handle h =
    is_name h.employee_id
    && is_name h.adapter
    && is_name h.internal_session_id
    && is_nullable_name h.native_session_id

unfoldable pub is_readable_session : SessionCheckpoint → Bool
is_readable_session s =
    is_name s.employee_id
    && is_readable_handle s.handle
    && s.handle.employee_id == s.employee_id
    && is_nullable_name s.active_task_id
    && is_handoff s.handoff

unfoldable pub are_readable : List SessionCheckpoint → Bool
are_readable [] = true
are_readable (s ∷ ss) = is_readable_session s && are_readable ss

-- Every text is within its length and has none of the characters that it may not have, the number is
-- safe, and every handle is of its session's employee.
unfoldable pub is_readable : CompanyCheckpoint → Bool
is_readable c =
    leb c.last_event_sequence max_safe_integer && is_name c.company_id && are_readable c.sessions

-- A read that gives back what was written, or fails.
abbrev Reads : {A : Type 0} → Bool → A → Result A → Type 0
Reads b a r = (b ≡ true → r ≡ ok a) × (b ≡ false → is_ok r ≡ false)

read_nullable_string-Reads :
    (o : Option String) (label : String)
    → Reads (is_nullable_name o) o (read_nullable_string (some (nullable o)) label)
unfolding read_nullable_string read_string nullable is_nullable_name
read_nullable_string-Reads none label = (λ e. refl, λ e. ground (arith, e))
read_nullable_string-Reads (some s) label = (λ e. ground (arith, e), λ e. ground (arith, e))

parse_handle-Reads :
    (h : SessionHandle) → Reads (is_readable_handle h) h (parse_handle (some (handle_value h)))
unfolding parse_handle handle_value get_field read_string is_readable_handle
parse_handle-Reads h =
    let n = read_nullable_string-Reads h.native_session_id "checkpoint nativeSessionId" in
    (λ e. ground (arith, e, n), λ e. ground (arith, e, n))

parse_session-Reads :
    (s : SessionCheckpoint) → Reads (is_readable_session s) s (parse_session (session_value s))
unfolding parse_session session_value get_field read_string read_handoff is_readable_session guard
parse_session-Reads s =
    let h = parse_handle-Reads s.handle in
    let a = read_nullable_string-Reads s.active_task_id "checkpoint activeTaskId" in
    elim (Bool-cases (is_readable_handle s.handle)) [
      | inl e ↦ (λ f. ground (arith, e, f, h, a), λ f. ground (arith, e, f, h, a))
      | inr e ↦ (λ f. ground (arith, e, f), λ f. ground (arith, e, f, h, a))
    ]

parse_sessions-Reads :
    (ss : List SessionCheckpoint) → Reads (are_readable ss) ss (parse_sessions (session_items ss))
unfolding parse_sessions session_items are_readable
parse_sessions-Reads [] = (λ e. refl, λ e. ground (arith, e))
parse_sessions-Reads (s ∷ ss) =
    let h = parse_session-Reads s in
    let rest = parse_sessions-Reads ss in
    (λ f. ground (arith, f, h, rest), λ f. ground (arith, f, h, rest))

parse_reason-text : (r : PauseReason) → parse_reason (some (str (reason_text r))) ≡ ok r
unfolding parse_reason reason_text
parse_reason-text user_requested = refl
parse_reason-text last_client_exited = refl
parse_reason-text shutdown = refl

parse-Reads :
    (c : CompanyCheckpoint)
    → Reads (is_readable c) c (parse_company_checkpoint (checkpoint_value c))
unfolding parse_company_checkpoint checkpoint_value get_field parse_sequence parse_array read_string
    is_readable
parse-Reads c =
    let r = parse_reason-text c.reason in
    let ss = parse_sessions-Reads c.sessions in
    (λ f. ground (arith, f, r, ss), λ f. ground (arith, f, r, ss))

-- A checkpoint whose texts are within their limits is read back as it was written.
pub parse-checkpoint_value :
    (c : CompanyCheckpoint)
    → is_readable c ≡ true
    → parse_company_checkpoint (checkpoint_value c) ≡ ok c
parse-checkpoint_value c h = (parse-Reads c).0 h

-- A checkpoint with a text that is empty, too long or has a character that it may not have is
-- refused when it is read, and so is one whose number is not safe or whose handle is of another
-- employee.
pub parse-unreadable :
    (c : CompanyCheckpoint)
    → is_readable c ≡ false
    → is_ok (parse_company_checkpoint (checkpoint_value c)) ≡ false
parse-unreadable c h = (parse-Reads c).1 h
