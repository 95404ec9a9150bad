-- ===== src/Terminal/Shell.antt =====
-- The shell of a session, and the sizes of its terminal.
use agynio.Prelude.{
  get_or, get_or, ◌++◌, ◌==◌, ℕ, ◌≤◌, String, ◌≡◌, refl, true, false, Option, none, some, List, [],
  ◌∷◌, arith, inl, inr, Bool-cases, eq_refl, lookup, lookup-insert, ◌∙◌, ap,
}
use agynio.Prelude.Int.{pos}
use agynio.Prelude.Text.{same_text_iff, codes, same_text, trim, contains, trim_idem, same_text_iff}
use agynio.Terminal.{
  TerminalSessionRecord, Sessions, Result, ok, fails, exec_failed, ExecReply, stdout, throws_error,
  throws_other, CreateSessionOptions, Number, clamp, first_line, detected_shell, determine_shell,
  new_session, add_session, create_session,
}

clamp-bounds :
    (value : Number) (low high : ℕ)
    → low ≤ high
    → (low ≤ clamp value low high) × (clamp value low high ≤ high)
unfolding clamp
clamp-bounds none low high h = ground arith
clamp-bounds (some value) low high h = ground arith

-- A text that is trimmed and not empty.
abbrev pub IsShell : List ℕ → Type 0
IsShell s = (trim s ≡ s) × (same_text s [] ≡ false)

-- What a caller asks for: a shell of its own, unless it names none or a blank one.
abbrev pub preferred_shell : Option (List ℕ) → List ℕ
preferred_shell none = []
preferred_shell (some s) = trim s

-- What `determine_shell` promises: a shell, or the error of a workspace that does not run, when no
-- shell was asked for.
abbrev pub Determined : ExecReply → List ℕ → Result (List ℕ) → Type 0
Determined exec preferred (ok shell) =
    IsShell shell × (same_text preferred [] ≡ false → shell ≡ preferred)
Determined exec preferred (fails e) =
    (preferred ≡ [])
    × ((message : List ℕ) × (exec ≡ throws_error message)
        × (contains (codes "not running") message ≡ true)
        × (e ≡ exec_failed message))

first_line-trim : (line s : List ℕ) → trim (first_line line s) ≡ first_line line s
unfolding first_line
first_line-trim line [] = trim_idem line
first_line-trim line (c ∷ s) = elim (Bool-cases (c == 10)) [
  | inr inside ↦ rw inside (first_line-trim (line ++ c ∷ []) s)
  | inl ends ↦ rw ends elim (Bool-cases (same_text (trim line) [])) [
    | inl blank ↦ rw blank (first_line-trim [] s)
    | inr text ↦ rw text (trim_idem line)
  ]
]

detected-Determined : (exec : ExecReply) → Determined exec [] (detected_shell exec)
unfolding detected_shell
detected-Determined (stdout s) = elim (Bool-cases (same_text (first_line [] s) [])) [
  | inl blank ↦ rw blank ((refl, refl), λ h. cc)
  | inr text ↦ rw text ((first_line-trim [] s, text), λ h. cc)
]
detected-Determined (throws_error message) =
    elim (Bool-cases (contains (codes "not running") message)) [
      | inl stopped ↦ rw stopped (refl, (message, refl, stopped, refl))
      | inr other ↦ rw other ((refl, refl), λ h. cc)
    ]
detected-Determined throws_other = ((refl, refl), λ h. cc)

determine-Determined :
    (exec : ExecReply) (preferred : Option (List ℕ))
    → Determined exec (preferred_shell preferred) (determine_shell exec preferred)
unfolding determine_shell
determine-Determined exec none = detected-Determined exec
determine-Determined exec (some s) = elim (Bool-cases (same_text (trim s) [])) [
  | inl blank ↦
      let nothing : trim s ≡ [] = (same_text_iff (trim s) []).0 blank in
      rw nothing (detected-Determined exec)
  | inr text ↦ rw text ((trim_idem s, text), λ h. refl)
]

-- How a call of `createSession` ends: with a session that fits and is stored, or unchanged, and then
-- only because the workspace does not run and no shell was asked for.
abbrev pub Created :
    ExecReply
    → String
    → Option (List ℕ)
    → Sessions
    → Result TerminalSessionRecord × Sessions
    → Type 0
Created exec id preferred s (ok r, s') =
    (lookup id s' ≡ some r)
    × IsShell r.shell
    × (same_text (preferred_shell preferred) [] ≡ false → r.shell ≡ preferred_shell preferred)
    × ((40 ≤ r.cols) × (r.cols ≤ 400) × (10 ≤ r.rows) × (r.rows ≤ 200))
Created exec id preferred s (fails e, s') =
    (s' ≡ s)
    × (preferred_shell preferred ≡ [])
    × ((message : List ℕ) × (exec ≡ throws_error message)
        × (contains (codes "not running") message ≡ true)
        × (e ≡ exec_failed message))

module _ (exec : ExecReply) (id token workspace : String) (options : CreateSessionOptions) (now : ℕ)
    (s : Sessions) where
  sizes :
      (shell : List ℕ)
      → (let r = new_session id token workspace shell options now in
          (40 ≤ r.cols) × (r.cols ≤ 400) × (10 ≤ r.rows) × (r.rows ≤ 200))
  unfolding new_session
  sizes shell =
      let wide = clamp-bounds (get_or options.cols (some (pos 120))) 40 400 (omega arith) in
      let high = clamp-bounds (get_or options.rows (some (pos 32))) 10 200 (omega arith) in
      (wide.0, wide.1, high.0, high.1)

  add-Created :
      (shell : Result (List ℕ))
      → Determined exec (preferred_shell options.shell) shell
      → Created exec id options.shell s (add_session id token workspace options now s shell)
  unfolding add_session new_session
  add-Created (fails e) d = (refl, d.0, d.1)
  add-Created (ok shell) d =
      let r = new_session id token workspace (trim shell) options now in
      let text : same_text (trim shell) [] ≡ false = ap (λ x. same_text x []) d.0.0 ∙ d.0.1 in
      rw text (
        rw (lookup-insert id id r s, eq_refl id) refl,
        (rw d.0.0 d.0.0, text),
        (λ h. rw d.0.0 (d.1 h)),
        sizes (trim shell),
      )

  -- Creating a session stores and returns a record with a trimmed shell that is not empty, the asked
  -- one if any, and sizes within the limits; it fails only if no shell is asked for and the workspace
  -- does not run, and then stores nothing.
  pub create_session-Created :
      Created exec id options.shell s (create_session exec id token workspace options now s)
  unfolding create_session
  create_session-Created =
      add-Created (determine_shell exec options.shell) (determine-Determined exec options.shell)
