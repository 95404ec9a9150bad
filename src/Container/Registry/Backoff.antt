-- ===== src/Container/Registry/Backoff.antt =====
-- A container whose termination failed waits, longer after each failure, and comes up again exactly
-- when its wait is over.
use native.Mathlib.Nat.{pow-suc}
use agynio.Prelude.{
  ℕ, zero, suc, ◌+◌, ◌*◌, ◌^◌, ◌≤◌, min, String, ◌≡◌, refl, Option, some, arith, leb, get_or,
}
use agynio.Container.{Row, Table, terminating, find_unique}
use agynio.Container.Registry.Lookup.{find_unique-update_existing}
use agynio.Container.Registry.{
  normalize_metadata, is_expired, retry_delay_ms, record_termination_failure,
}

one-le-pow : (n : ℕ) → 1 ≤ 2 ^ n
one-le-pow zero = omega arith
one-le-pow (suc n) = omega (arith, pow-suc 2 n, one-le-pow n)

retry_delay_bounds :
    (attempts : ℕ) → (1000 ≤ retry_delay_ms attempts) × (retry_delay_ms attempts ≤ 900000)
unfolding retry_delay_ms
retry_delay_bounds attempts = omega (arith, one-le-pow attempts)

retry_delay-double :
    (attempts : ℕ) → retry_delay_ms (suc attempts) ≡ min (2 * retry_delay_ms attempts) 900000
unfolding retry_delay_ms
retry_delay-double attempts = omega (arith, pow-suc 2 attempts)

-- A row that waits `delay` from `now` on, after `attempts` failures.
pub record Waits (now attempts delay : ℕ) (o : Option Row) : Type 0 where
  pub row : Row
  pub found : o ≡ some row
  pub counted : row.metadata.termination_attempts ≡ some (suc attempts)
  pub due : (t : ℕ) → is_expired t row ≡ leb (now + delay) t
  pub at_least : 1000 ≤ delay
  pub at_most : delay ≤ 900000
  pub next_delay : retry_delay_ms (suc attempts) ≡ min (2 * delay) 900000

-- After a failed termination of a terminating container with `attempts` failures before: the failure
-- is counted, and a sweep picks the container up exactly from the end of its wait on. The wait is at
-- least 1 s and at most 15 min, and the next one is twice as long, up to 15 min.
pub termination_failure-Waits :
    (id message : String) (now : ℕ) (t : Table) (r : Row)
    → find_unique id t ≡ some r
    → r.status ≡ terminating
    → (let attempts = get_or r.metadata.termination_attempts 0 in
        Waits now attempts
          (retry_delay_ms attempts)
          (find_unique id (record_termination_failure id message now t)))
unfolding record_termination_failure is_expired
termination_failure-Waits id message now t r found ending =
    let attempts = get_or r.metadata.termination_attempts 0 in
    let m = normalize_metadata r.metadata in
    record {
      row = record r {
        updated_at = now;
        metadata = record m {
          last_error = some message;
          retry_after = some (now + retry_delay_ms attempts);
          termination_attempts = some (attempts + 1);
        };
      };
      found = find_unique-update_existing id now _ t r found (λ r r'. refl);
      counted = ground arith;
      due = λ t. simp ending;
      at_least = (retry_delay_bounds attempts).0;
      at_most = (retry_delay_bounds attempts).1;
      next_delay = retry_delay-double attempts;
    }
