-- ===== src/Terminal/Connection.antt =====
-- A session is connected at most once, and every session that is kept fits.
use agynio.Prelude.{
  ℕ, ◌+◌, ◌≤◌, String, ◌≡◌, refl, Bool, true, false, not, Option, none, some, List, [], ◌∷◌, arith,
  str_eq, eq_iff, if◌then◌else◌, All, lookup, lookup-remove, lookup-insert,
}
use agynio.Prelude.Text.{trim}
use agynio.Terminal.{
  new_session, add_session, determine_shell, pending, connected, TerminalSessionRecord, Sessions,
  Result, ok, fails, ExecReply, CreateSessionOptions, create_session, validate, check,
  mark_connected, connect, touch, touched, close, on_module_destroy, prune,
}
use agynio.Terminal.Validation.{lookup-prune, keeps}
use agynio.Terminal.Keys.{KeysOnce, passing, KeysOnce-insert, KeysOnce-remove, KeysOnce-filter}

-- The calls of the service, with their times.
pub data Call : Type 0 where
  creates : ExecReply → String → String → String → CreateSessionOptions → ℕ → Call
  validates : String → String → ℕ → Call
  connects : String → ℕ → Call
  touches : String → ℕ → Call
  closes : String → Call
  prunes : ℕ → Call
  destroys : Call

abbrev pub step : Call → Sessions → Sessions
step (creates exec id token workspace options now) s =
    (create_session exec id token workspace options now s).1
step (validates id token now) s = (validate id token now s).1
step (connects id now) s = (mark_connected id now s).1
step (touches id now) s = touch id now s
step (closes id) s = close id s
step (prunes now) s = prune now s
step destroys s = on_module_destroy s

abbrev succeeds {ℓ} : {A : Type ℓ} → Result A → ℕ
succeeds (ok a) = 1
succeeds (fails e) = 0

-- How often a call connects a session.
abbrev pub connection : String → Call → Sessions → ℕ
connection j (connects id now) s = if str_eq id j then succeeds (mark_connected id now s).0 else 0
connection j _ s = 0

abbrev pub connections : String → List Call → Sessions → ℕ
connections j [] s = 0
connections j (call ∷ calls) s = connection j call s + connections j calls (step call s)

-- How often a session can still be connected.
abbrev left : Option TerminalSessionRecord → ℕ
left none = 0
left (some r) = elim r.state [ pending ↦ 1 | connected ↦ 0 ]

-- A call that does not create the session.
abbrev pub keeps_id : String → Call → Bool
keeps_id j (creates exec id token workspace options now) = not (str_eq id j)
keeps_id j _ = true

module _ (j : String) where
  check-left :
      (id token : String) (now : ℕ) (s : Sessions) (o : Option TerminalSessionRecord)
      → left (lookup j (check id token now s o).1) ≤ left (lookup j s)
  check-left id token now s none = omega arith
  check-left id token now s (some r) = ground (arith, lookup-remove id j s)

  connect-left :
      (id : String) (now : ℕ) (s : Sessions) (o : Option TerminalSessionRecord)
      → lookup id s ≡ o
      → (if str_eq id j then succeeds (connect id now s o).0 else 0)
          + left (lookup j (connect id now s o).1)
        ≤ left (lookup j s)
  connect-left id now s none e = ground arith
  connect-left id now s (some r) e = ground (
    arith,
    e,
    eq_iff id j,
    lookup-insert id j (record r { state = connected; last_activity_at = now }) s,
  )

  touched-left :
      (id : String) (now : ℕ) (s : Sessions) (o : Option TerminalSessionRecord)
      → lookup id s ≡ o
      → left (lookup j (touched id now s o)) ≤ left (lookup j s)
  touched-left id now s none e = omega arith
  touched-left id now s (some r) e =
      ground (arith, e, eq_iff id j, lookup-insert id j (record r { last_activity_at = now }) s)

  passing-left :
      (now : ℕ) (o : Option TerminalSessionRecord) → left (passing (keeps now) o) ≤ left o
  passing-left now none = omega arith
  passing-left now (some r) = ground arith

  empty-left : left (lookup j []) ≡ 0
  unfolding lookup
  empty-left = refl

  add-other :
      (id token workspace : String) (options : CreateSessionOptions) (now : ℕ) (s : Sessions)
      (shell : Result (List ℕ))
      → str_eq id j ≡ false
      → lookup j (add_session id token workspace options now s shell).1 ≡ lookup j s
  unfolding add_session
  add-other id token workspace options now s (fails e) ne = refl
  add-other id token workspace options now s (ok shell) ne =
      ground
        (arith, ne, lookup-insert id j (new_session id token workspace (trim shell) options now) s)

  -- Each call uses up at most what it takes away.
  call-left :
      (call : Call) (s : Sessions)
      → KeysOnce s
      → keeps_id j call ≡ true
      → connection j call s + left (lookup j (step call s)) ≤ left (lookup j s)
  unfolding create_session validate mark_connected touch close on_module_destroy
  call-left (creates exec id token workspace options now) s k own =
      let same =
        add-other id token workspace options now s (determine_shell exec options.shell)
          (ground (arith, own)) in
      rw same (omega arith)
  call-left (validates id token now) s k own =
      omega (arith, check-left id token now s (lookup id s))
  call-left (connects id now) s k own = connect-left id now s (lookup id s) refl
  call-left (touches id now) s k own = omega (arith, touched-left id now s (lookup id s) refl)
  call-left (closes id) s k own = ground (arith, lookup-remove id j s)
  call-left (prunes now) s k own =
      rw (lookup-prune j now s k) (omega (arith, passing-left now (lookup j s)))
  call-left destroys s k own = omega (arith, empty-left)

check-KeysOnce :
    (id token : String) (now : ℕ) (s : Sessions) (o : Option TerminalSessionRecord)
    → KeysOnce s
    → KeysOnce (check id token now s o).1
check-KeysOnce id token now s none k = k
check-KeysOnce id token now s (some r) k = ground (arith, KeysOnce-remove id s k)

connect-KeysOnce :
    (id : String) (now : ℕ) (s : Sessions) (o : Option TerminalSessionRecord)
    → KeysOnce s
    → KeysOnce (connect id now s o).1
connect-KeysOnce id now s none k = k
connect-KeysOnce id now s (some r) k =
    ground (arith, KeysOnce-insert id (record r { state = connected; last_activity_at = now }) s k)

touched-KeysOnce :
    (id : String) (now : ℕ) (s : Sessions) (o : Option TerminalSessionRecord)
    → KeysOnce s
    → KeysOnce (touched id now s o)
touched-KeysOnce id now s none k = k
touched-KeysOnce id now s (some r) k = KeysOnce-insert id (record r { last_activity_at = now }) s k

add-KeysOnce :
    (id token workspace : String) (options : CreateSessionOptions) (now : ℕ) (s : Sessions)
    (shell : Result (List ℕ))
    → KeysOnce s
    → KeysOnce (add_session id token workspace options now s shell).1
unfolding add_session
add-KeysOnce id token workspace options now s (fails e) k = k
add-KeysOnce id token workspace options now s (ok shell) k =
    let r = new_session id token workspace (trim shell) options now in
    ground (arith, KeysOnce-insert id r s k)

step-KeysOnce : (call : Call) (s : Sessions) → KeysOnce s → KeysOnce (step call s)
unfolding create_session validate mark_connected touch close on_module_destroy prune
step-KeysOnce (creates exec id token workspace options now) s k =
    add-KeysOnce id token workspace options now s (determine_shell exec options.shell) k
step-KeysOnce (validates id token now) s k = check-KeysOnce id token now s (lookup id s) k
step-KeysOnce (connects id now) s k = connect-KeysOnce id now s (lookup id s) k
step-KeysOnce (touches id now) s k = touched-KeysOnce id now s (lookup id s) k
step-KeysOnce (closes id) s k = KeysOnce-remove id s k
step-KeysOnce (prunes now) s k = KeysOnce-filter (keeps now) s k
step-KeysOnce destroys s k = tt

calls-left :
    (j : String) (calls : List Call) (s : Sessions)
    → KeysOnce s
    → All (λ (call : Call). keeps_id j call ≡ true) calls
    → connections j calls s ≤ left (lookup j s)
calls-left j [] s k own = omega arith
calls-left j (call ∷ calls) s k own = omega (
  arith,
  call-left j call s k own.0,
  calls-left j calls (step call s) (step-KeysOnce call s k) own.1,
)

-- Over any calls, at any times, that do not create a session under the id again: the session is
-- connected at most once.
pub connections-once :
    (j : String) (calls : List Call) (s : Sessions)
    → KeysOnce s
    → All (λ (call : Call). keeps_id j call ≡ true) calls
    → connections j calls s ≤ 1
connections-once j calls s k own = ground (arith, calls-left j calls s k own)
