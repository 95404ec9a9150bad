-- ===== src/LlmLoop/Outcome.antt =====
-- What the loop keeps, and what it ends with.
use agynio.Prelude.{
  ◌+◌, ap, ◌∙◌, ℕ, zero, suc, ◌≡◌, refl, sym, String, Bool, true, false, Option, none, some,
  is_some, truthy, Assoc, lookup, str_eq, if◌then◌else◌, arith, All, [], ◌∷◌,
}
use agynio.LlmLoop.{
  Router, Reducer, no_next_reducer, rejected, Round, again, returned, threw, after_route,
  after_invoke, run_found, round, invoke,
}

module _ {S : Type 0} (P : S → Type 0) where
  -- The reducer and its router keep the predicate.
  pub record Keeps (reducer : Reducer S) : Type 0 where
    pub runs : (s s' : S) → reducer.run s ≡ some s' → P s → P s'
    pub routes :
        (route : Router S)
        → reducer.next_router ≡ some route
        → (s : S) (answer : S × Option String) → route s ≡ some answer
        → P s
        → P (answer.0)

  module _ (reducers : Assoc (Reducer S)) where
    abbrev pub IsRegistered : String → Type 0
    IsRegistered id = is_some (lookup id reducers) ≡ true

    -- What an ended loop may have ended with.
    pub data Ends : Round S → Type 0 where
      returns : (s : S) → P s → Ends (returned s)
      rejects : Ends (threw rejected)
      misses :
          (id : String) → is_some (lookup id reducers) ≡ false → Ends (threw (no_next_reducer id))

    abbrev Sound : Round S → Type 0
    Sound (again id s) = IsRegistered id × P s
    Sound (returned s) = Ends (returned s)
    Sound (threw e) = Ends (threw e)

    chosen :
        (here : Bool) (first reducer : Reducer S) (later : Option (Reducer S))
        → Keeps first
        → (later ≡ some reducer → Keeps reducer)
        → elim here [ true ↦ some first | false ↦ later ] ≡ some reducer
        → Keeps reducer
    chosen true first reducer later keeps h e =
        let same : first ≡ reducer = ground (arith, e) in rw (sym same) keeps
    chosen false first reducer later keeps h e = h e

    lookup-Keeps :
        (id : String) (entries : Assoc (Reducer S)) (reducer : Reducer S)
        → All (λ entry. Keeps (entry.1)) entries
        → lookup id entries ≡ some reducer
        → Keeps reducer
    unfolding lookup
    lookup-Keeps id [] reducer all e = cc
    lookup-Keeps id (entry ∷ entries) reducer all e =
        chosen (str_eq entry.0 id) (entry.1) reducer (lookup id entries) all.0
          (lookup-Keeps id entries reducer all.1) e

    guard-Sound :
        (id : String) (s : S) (found : Bool)
        → is_some (lookup id reducers) ≡ found
        → P s
        → Sound (if found then again id s else threw (no_next_reducer id))
    guard-Sound id s true e p = (e, p)
    guard-Sound id s false e p = misses id e

    next-Sound :
        (s : S) (next : Option String)
        → P s
        → Sound (elim next [
          | none ↦ returned s
          | some id ↦
              if is_some (lookup id reducers) then again id s else threw (no_next_reducer id)
        ])
    next-Sound s none p = returns s p
    next-Sound s (some id) p = guard-Sound id s (is_some (lookup id reducers)) refl p

    route-Sound :
        (answer : Option (S × Option String))
        → ((a : S × Option String) → answer ≡ some a → P (a.0))
        → Sound (after_route reducers answer)
    unfolding after_route
    route-Sound none h = rejects
    route-Sound (some a) h = next-Sound (a.0) (truthy a.1) (h a refl)

    invoke-Sound :
        (reducer : Reducer S)
        → Keeps reducer
        → (router : Option (Router S)) → reducer.next_router ≡ router
        → (result : Option S) → ((s' : S) → result ≡ some s' → P s')
        → Sound (after_invoke reducers router result)
    unfolding after_invoke
    invoke-Sound reducer keeps router r none h = rejects
    invoke-Sound reducer keeps none r (some s) h = returns s (h s refl)
    invoke-Sound reducer keeps (some route) r (some s) h =
        route-Sound (route s) (λ a e. keeps.routes route r s a e (h s refl))

    module _ (all : All (λ entry. Keeps (entry.1)) reducers) where
      found-Sound :
          (id : String) (s : S) (found : Option (Reducer S))
          → lookup id reducers ≡ found
          → is_some found ≡ true
          → P s
          → Sound (run_found reducers id s found)
      unfolding run_found
      found-Sound id s none e there p = cc
      found-Sound id s (some reducer) e there p =
          let keeps = lookup-Keeps id reducers reducer all e in
          invoke-Sound reducer keeps reducer.next_router refl (reducer.run s)
            (λ s' ran. keeps.runs s s' ran p)

      start-Sound :
          (id : String) (s : S) (stop : Bool)
          → IsRegistered id
          → P s
          → Sound (if stop then returned s else run_found reducers id s (lookup id reducers))
      start-Sound id s true there p = returns s p
      start-Sound id s false there p = found-Sound id s (lookup id reducers) refl there p

      round-Sound : (id : String) (s : S) → IsRegistered id → P s → Sound (round reducers id s)
      unfolding round
      round-Sound id s there p = start-Sound id s (str_eq id "") there p

      -- From a reducer and a state, after a number of rounds.
      pub data Progress (rounds : ℕ) (id : String) (s : S) : Type 0 where
        ended :
            (end : Round S)
            → ((more : ℕ) → invoke reducers (rounds + more) id s ≡ some end)
            → Ends end
            → Progress rounds id s
        goes_on :
            (id' : String) (s' : S)
            → ((more : ℕ) → invoke reducers (rounds + more) id s ≡ invoke reducers more id' s')
            → IsRegistered id'
            → P s'
            → Progress rounds id s

      next_round : (rounds more : ℕ) → suc rounds + more ≡ suc (rounds + more)
      next_round rounds more = omega arith

      no_round : (more : ℕ) → 0 + more ≡ more
      no_round more = omega arith

      invoke-again :
          (rounds : ℕ) (id : String) (s : S) (r : Round S)
          → round reducers id s ≡ r
          → (more : ℕ)
          → invoke reducers (suc rounds + more) id s ≡ elim r [
            | again next later ↦ invoke reducers (rounds + more) next later
            | returned final ↦ some (returned final)
            | threw e ↦ some (threw e)
          ]
      unfolding invoke
      invoke-again rounds id s r e more =
          ap (λ n. invoke reducers n id s) (next_round rounds more)
          ∙ ap
              (λ (o : Round S). elim o [
                | again next later ↦ invoke reducers (rounds + more) next later
                | returned final ↦ some (returned final)
                | threw e ↦ some (threw e)
              ])
              e

      -- Reducers and routers that keep a predicate, from a registered start with a state that has it:
      -- after any number of rounds the loop has ended, with a state that has the predicate, a rejected
      -- promise or an unregistered next reducer, and further rounds change nothing; or it goes on with a
      -- registered reducer and a state that has the predicate. It never ends for want of the reducer it
      -- runs.
      pub invoke-Progress :
          (rounds : ℕ) (id : String) (s : S) → IsRegistered id → P s → Progress rounds id s
      invoke-Progress zero id s there p =
          goes_on id s (λ more. ap (λ n. invoke reducers n id s) (no_round more)) there p
      invoke-Progress (suc rounds) id s there p =
          go (round reducers id s) refl (round-Sound id s there p) (invoke-Progress rounds)
        where
          go :
              (r : Round S)
              → round reducers id s ≡ r
              → Sound r
              → ((later : String) (s' : S) → IsRegistered later → P s' → Progress rounds later s')
              → Progress (suc rounds) id s
          go (again next later) e sound ih = elim (ih next later sound.0 sound.1) [
            | ended end same ends ↦
                ended end (λ more. invoke-again rounds id s (again next later) e more ∙ same more)
                  ends
            | goes_on id' s' same registered kept ↦
                goes_on id' s'
                  (λ more. invoke-again rounds id s (again next later) e more ∙ same more)
                  registered kept
          ]
          go (returned final) e sound ih =
              ended (returned final) (invoke-again rounds id s (returned final) e) sound
          go (threw error) e sound ih =
              ended (threw error) (invoke-again rounds id s (threw error) e) sound
