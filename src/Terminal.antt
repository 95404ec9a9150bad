-- ===== src/Terminal.antt =====
-- infra/container/terminal.sessions.service.ts: the sessions of interactive terminals. A session's id
-- and token, which the source draws at random, are arguments, and so is the time of each call.
pub mod Keys
pub mod Validation
pub mod Connection
pub mod Shell
pub mod Tests
use agynio.Prelude.{
  ◌++◌, ◌++◌, ℕ, ◌+◌, ◌*◌, min, max, String, Bool, true, false, not, ◌||◌, Option, none, some, List,
  [], ◌∷◌, leb, ◌==◌, str_eq, if◌then◌else◌, filter, get_or, Assoc, lookup, insert, remove,
}
use agynio.Prelude.Int.{ℤ, pos, negsuc, max_zero}
use agynio.Prelude.Text.{codes, same_text, trim, before, starts_with, contains}

pub data SessionState : Type 0 where
  pending connected : SessionState

pub record TerminalSessionRecord : Type 0 where
  pub session_id : String
  pub token : String
  pub workspace_id : String
  pub shell : List ℕ
  pub cols : ℕ
  pub rows : ℕ
  pub created_at : ℕ
  pub last_activity_at : ℕ
  pub idle_timeout_ms : ℕ
  pub max_duration_ms : ℕ
  pub state : SessionState

abbrev pub Sessions : Type 0
Sessions = Assoc TerminalSessionRecord

pub data SessionError : Type 0 where
  shell_detection_failed session_not_found invalid_token session_expired session_idle_timeout
        session_already_connected :
      SessionError
  exec_failed : List ℕ → SessionError

pub data Result {ℓ} (A : Type ℓ) : Type ℓ where
  ok : A → Result A
  fails : SessionError → Result A

-- A number of the caller, by `Math.trunc`: `none` is NaN or infinite.
abbrev Number : Type 0
Number = Option ℤ

-- `clamp`
pub clamp : Number → ℕ → ℕ → ℕ
clamp none low high = low
clamp (some value) low high = max low (min high (max_zero value))

-- What `exec` in the workspace answers: its output, an Error with a message, or some other throw.
pub data ExecReply : Type 0 where
  stdout : List ℕ → ExecReply
  throws_error : List ℕ → ExecReply
  throws_other : ExecReply

abbrev fallback : List ℕ
fallback = codes "/bin/sh"

-- The first line that is not blank, trimmed: `line` is the line that is being read.
first_line : List ℕ → List ℕ → List ℕ
first_line line [] = trim line
first_line line (c ∷ s) =
    let later = first_line [] s in
    let longer = first_line (line ++ c ∷ []) s in
    if c == 10 then (if same_text (trim line) [] then later else trim line) else longer

detected_shell : ExecReply → Result (List ℕ)
unfolding first_line
detected_shell (stdout s) =
    let line = first_line [] s in ok (if same_text line [] then fallback else line)
detected_shell (throws_error message) =
    if contains (codes "not running") message then fails (exec_failed message) else ok fallback
detected_shell throws_other = ok fallback

-- `determineShell`; `exec` is what the workspace answers to the script that looks for a shell.
pub determine_shell : ExecReply → Option (List ℕ) → Result (List ℕ)
unfolding detected_shell
determine_shell exec none = detected_shell exec
determine_shell exec (some preferred) =
    if same_text (trim preferred) [] then detected_shell exec else ok (trim preferred)

pub record CreateSessionOptions : Type 0 where
  pub cols : Option Number
  pub rows : Option Number
  pub shell : Option (List ℕ)

pub new_session :
    String → String → String → List ℕ → CreateSessionOptions → ℕ → TerminalSessionRecord
unfolding clamp
new_session session_id token workspace_id shell options now = record {
  session_id = session_id;
  token = token;
  workspace_id = workspace_id;
  shell = shell;
  cols = clamp (get_or options.cols (some (pos 120))) 40 400;
  rows = clamp (get_or options.rows (some (pos 32))) 10 200;
  created_at = now;
  last_activity_at = now;
  idle_timeout_ms = 5 * 60 * 1000;
  max_duration_ms = 30 * 60 * 1000;
  state = pending;
}

-- `createSession` once the shell is known: the session whose id, token, shell and sizes the caller
-- gets, with a URL and an expiry made of them, and the sessions.
pub add_session :
    String
    → String
    → String
    → CreateSessionOptions
    → ℕ
    → Sessions
    → Result (List ℕ)
    → Result TerminalSessionRecord × Sessions
unfolding new_session
add_session session_id token workspace_id options now sessions (fails e) = (fails e, sessions)
add_session session_id token workspace_id options now sessions (ok shell) =
    let r = new_session session_id token workspace_id (trim shell) options now in
    if same_text (trim shell) []
    then (fails shell_detection_failed, sessions)
    else (ok r, insert session_id r sessions)

pub create_session :
    ExecReply
    → String
    → String
    → String
    → CreateSessionOptions
    → ℕ
    → Sessions
    → Result TerminalSessionRecord × Sessions
create_session exec session_id token workspace_id options now sessions =
    add_session session_id token workspace_id options now sessions
      (determine_shell exec options.shell)

abbrev pub is_over : TerminalSessionRecord → ℕ → Bool
is_over r now = leb (r.created_at + r.max_duration_ms) now

abbrev pub is_idle : TerminalSessionRecord → ℕ → Bool
is_idle r now = leb (r.last_activity_at + r.idle_timeout_ms) now

-- `validate` once the session has been looked up.
abbrev pub check :
    String
    → String
    → ℕ
    → Sessions
    → Option TerminalSessionRecord
    → Result TerminalSessionRecord × Sessions
check session_id token now sessions none = (fails session_not_found, sessions)
check session_id token now sessions (some r) =
    if not (str_eq r.token token)
    then (fails invalid_token, sessions)
    else if is_over r now
    then (fails session_expired, remove session_id sessions)
    else if is_idle r now
    then (fails session_idle_timeout, remove session_id sessions)
    else (ok r, sessions)

pub validate : String → String → ℕ → Sessions → Result TerminalSessionRecord × Sessions
validate session_id token now sessions =
    check session_id token now sessions (lookup session_id sessions)

pub get : String → Sessions → Option TerminalSessionRecord
get session_id sessions = lookup session_id sessions

abbrev pub connect :
    String → ℕ → Sessions → Option TerminalSessionRecord → Result (Unit {0}) × Sessions
connect session_id now sessions none = (fails session_not_found, sessions)
connect session_id now sessions (some r) = elim r.state [
  | connected ↦ (fails session_already_connected, sessions)
  | pending ↦
      (ok tt, insert session_id (record r { state = connected; last_activity_at = now }) sessions)
]

pub mark_connected : String → ℕ → Sessions → Result (Unit {0}) × Sessions
mark_connected session_id now sessions =
    connect session_id now sessions (lookup session_id sessions)

abbrev pub touched : String → ℕ → Sessions → Option TerminalSessionRecord → Sessions
touched session_id now sessions none = sessions
touched session_id now sessions (some r) =
    insert session_id (record r { last_activity_at = now }) sessions

pub touch : String → ℕ → Sessions → Sessions
touch session_id now sessions = touched session_id now sessions (lookup session_id sessions)

pub close : String → Sessions → Sessions
close session_id sessions = remove session_id sessions

pub on_module_destroy : Sessions → Sessions
on_module_destroy sessions = []

pub prune : ℕ → Sessions → Sessions
prune now sessions = filter (λ entry. not (is_over (entry.1) now || is_idle (entry.1) now)) sessions
