-- ===== src/Terminal/Tests.antt =====
-- The terminal sessions on concrete inputs.
use agynio.Prelude.{
  ℕ, String, ◌≡◌, ◌≤◌, refl, Bool, true, false, Option, none, some, List, [], ◌∷◌, All, map, lookup,
  is_some,
}
use agynio.Prelude.Int.{pos, negsuc}
use agynio.Prelude.Text.{codes}
use agynio.Terminal.{
  TerminalSessionRecord, Sessions, Result, ok, fails, session_already_connected, ExecReply, stdout,
  throws_error, throws_other, CreateSessionOptions, create_session, validate, get, mark_connected,
  touch, prune, close, pending, connected,
}
use agynio.Terminal.Keys.{KeysOnce}
use agynio.Terminal.Validation.{Agrees, validate-prune}
use agynio.Terminal.Connection.{Call, connects, touches, prunes, connections, connections-once}
use agynio.Terminal.Shell.{Created, create_session-Created}

abbrev opened : TerminalSessionRecord
opened = record {
  session_id = "s";
  token = "t";
  workspace_id = "w";
  shell = codes "/bin/bash";
  cols = 120;
  rows = 32;
  created_at = 1000;
  last_activity_at = 1000;
  idle_timeout_ms = 300000;
  max_duration_ms = 1800000;
  state = pending;
}

abbrev one : Sessions
one = ("s", opened) ∷ []

one-KeysOnce : KeysOnce one
unfolding lookup
one-KeysOnce = (refl, tt)

validate-prune_example : Agrees "s" 400000 opened one (validate "s" "t" 400000 one)
unfolding lookup
validate-prune_example = validate-prune "s" 400000 one opened one-KeysOnce refl

abbrev calls : List Call
calls = connects "s" 2000 ∷ touches "s" 3000 ∷ connects "s" 4000 ∷ prunes 5000 ∷ []

connections-once_example : connections "s" calls one ≤ 1
connections-once_example =
    connections-once "s" calls one one-KeysOnce (refl, (refl, (refl, (refl, tt))))

connections-one : connections "s" calls one ≡ 1
unfolding mark_connected lookup touch agynio.Prelude.insert
connections-one = refl

abbrev wide : CreateSessionOptions
wide = record {
  cols = some (some (pos 1000));
  rows = some (some (negsuc 3));
  shell = some (codes "  ");
}

abbrev bash : ExecReply
bash = stdout (codes "\n /bin/bash \nmore")

create_session-Created_example :
    Created bash "s" wide.shell one (create_session bash "s" "t" "w" wide 7 one)
create_session-Created_example = create_session-Created bash "s" "t" "w" wide 7 one

abbrev sizes_of : Result TerminalSessionRecord → List ℕ × List ℕ
sizes_of (ok r) = (r.shell, r.cols ∷ r.rows ∷ [])
sizes_of (fails e) = ([], [])

create_session-sizes :
    sizes_of (create_session bash "s" "t" "w" wide 7 []).0 ≡ (codes "/bin/bash", 400 ∷ 10 ∷ [])
unfolding create_session agynio.Terminal.add_session agynio.Terminal.determine_shell
create_session-sizes = refl

get-closed : get "s" (close "s" one) ≡ none
unfolding get lookup close agynio.Prelude.remove
get-closed = refl
