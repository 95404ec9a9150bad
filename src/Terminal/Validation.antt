-- ===== src/Terminal/Validation.antt =====
-- A session is valid exactly as long as pruning would keep it.
use agynio.Prelude.{
  ℕ, String, ◌≡◌, ◌↔◌, ◌∙◌, ap, Bool, false, not, ◌||◌, none, some, arith, str_eq, eq_refl,
  if◌then◌else◌, lookup, lookup-remove,
}
use agynio.Terminal.Keys.{KeysOnce, passing, lookup-filter}
use agynio.Terminal.{
  TerminalSessionRecord, Sessions, Result, ok, is_over, is_idle, check, validate, prune,
}

abbrev pub keeps : ℕ → TerminalSessionRecord → Bool
keeps now r = not (is_over r now || is_idle r now)

pub lookup-prune :
    (id : String) (now : ℕ) (s : Sessions)
    → KeysOnce s
    → lookup id (prune now s) ≡ passing (keeps now) (lookup id s)
unfolding prune
lookup-prune id now s k = lookup-filter (keeps now) id s k

-- What `validate` answers, and what it leaves, for a session `r` and its token.
pub record Agrees (id : String) (now : ℕ) (r : TerminalSessionRecord) (s : Sessions)
    (answer : Result TerminalSessionRecord × Sessions) : Type 0 where
  pub valid : (answer.0 ≡ ok r) ↔ (lookup id (prune now s) ≡ some r)
  pub left : lookup id answer.1 ≡ lookup id (prune now s)
  pub others : (j : String) → str_eq id j ≡ false → lookup j answer.1 ≡ lookup j s

check-Agrees :
    (id : String) (now : ℕ) (s : Sessions) (r : TerminalSessionRecord)
    → lookup id (prune now s) ≡ (if keeps now r then some r else none)
    → lookup id s ≡ some r
    → Agrees id now r s (check id r.token now s (some r))
check-Agrees id now s r pruned found = record {
  valid = ground (arith, pruned, eq_refl r.token);
  left = ground (arith, pruned, found, eq_refl r.token, eq_refl id, lookup-remove id id s);
  others = λ j ne. ground (arith, ne, eq_refl r.token, lookup-remove id j s);
}

-- For every session with its own token: validation accepts it exactly if pruning at the same time
-- would keep it, leaves it exactly then, and touches no other session.
pub validate-prune :
    (id : String) (now : ℕ) (s : Sessions) (r : TerminalSessionRecord)
    → KeysOnce s
    → lookup id s ≡ some r
    → Agrees id now r s (validate id r.token now s)
unfolding validate
validate-prune id now s r k found =
    rw found
      (check-Agrees id now s r (lookup-prune id now s k ∙ ap (passing (keeps now)) found) found)
