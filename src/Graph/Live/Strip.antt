-- ===== src/Graph/Live/Strip.antt =====
-- Configurations with unknown keys: what is applied in the end.
use agynio.Prelude.{
  true, false, Bool, ◌&&◌, ◌||◌, ◌++◌, inr, Bool-cases, ℕ, zero, suc, String, ◌≡◌, ◌⊎◌, refl,
  Option, none, some, List, [], ◌∷◌, ◌∙◌, ap, sym, arith, has, eq_iff, if◌then◌else◌, Assoc, lookup,
  inl,
}
use agynio.Graph.Live.{
  ZodIssue, is_root, SetReply, accepts, zod_error, other_error, extract_unknown_root_keys,
  prune_keys, strip_unknown, after_try, unless_none,
}

-- An issue at the root says that the key is not known.
abbrev AtRoot : Option (List String) → Type 0
AtRoot none = Unit
AtRoot (some path) = path ≡ []

pub data Names (k : String) : List ZodIssue → Type 0 where
  first :
      {i : ZodIssue} {issues : List ZodIssue}
      → i.is_unrecognized ≡ true
      → AtRoot i.path
      → has i.keys k ≡ true
      → Names k (i ∷ issues)
  later : {i : ZodIssue} {issues : List ZodIssue} → Names k issues → Names k (i ∷ issues)

has-append : (xs ys : List String) (k : String) → has (xs ++ ys) k ≡ (has xs k || has ys k)
has-append [] ys k = refl
has-append (x ∷ xs) ys k = ground (arith, has-append xs ys k)

is_root-AtRoot : (path : Option (List String)) → is_root path ≡ true → AtRoot path
is_root-AtRoot none e = tt
is_root-AtRoot (some []) e = refl
is_root-AtRoot (some (x ∷ path)) e = cc

extract-Names :
    (k : String) (issues : List ZodIssue)
    → has (extract_unknown_root_keys issues) k ≡ true
    → Names k issues
unfolding extract_unknown_root_keys
extract-Names k [] h = cc
extract-Names k (i ∷ issues) h =
    go (i.is_unrecognized && is_root i.path) refl (extract-Names k issues) h
  where
    rest : List String
    rest = extract_unknown_root_keys issues

    go :
        (b : Bool)
        → (i.is_unrecognized && is_root i.path) ≡ b
        → (has rest k ≡ true → Names k issues)
        → has (if b then i.keys ++ rest else rest) k ≡ true
        → Names k (i ∷ issues)
    go false e ih found = later (ih found)
    go true e ih found = elim (Bool-cases (has i.keys k)) [
      | inl here ↦ first (ground (arith, e)) (is_root-AtRoot i.path (ground (arith, e))) here
      | inr other ↦ later (ih (ground (arith, other, found, has-append i.keys rest k)))
    ]

module _ {ℓ} {V : Type ℓ} where
  unless_none-some :
      (keys : List String) (next : Option (Assoc V)) (c : Assoc V)
      → unless_none keys next ≡ some c
      → next ≡ some c
  unless_none-some [] next c e = cc
  unless_none-some (k ∷ keys) next c e = e

  lookup-prune_keys :
      (k : String) (obj : Assoc V) (keys : List String)
      → lookup k (prune_keys obj keys) ≡ (if has keys k then none else lookup k obj)
  unfolding lookup
  lookup-prune_keys k [] keys = ground arith
  lookup-prune_keys k (entry ∷ obj) keys =
      ground (arith, lookup-prune_keys k obj keys, eq_iff entry.0 k)

  module _ (set : Assoc V → SetReply) where
    -- A refusal names the key as unknown at the root.
    pub record IsNamed (k : String) : Type ℓ where
      pub tried : Assoc V
      pub issues : List ZodIssue
      pub refused : set tried ≡ zod_error issues
      pub named : Names k issues

    -- Every key has its value of the other configuration, or is gone after such a refusal.
    abbrev pub Stripped : Assoc V → Assoc V → Type ℓ
    Stripped c cfg = (k : String) → (lookup k c ≡ lookup k cfg) ⊎ ((lookup k c ≡ none) × IsNamed k)

    Stripped-prune :
        (c cfg : Assoc V) (issues : List ZodIssue)
        → set cfg ≡ zod_error issues
        → Stripped c (prune_keys cfg (extract_unknown_root_keys issues))
        → Stripped c cfg
    Stripped-prune c cfg issues e h k = elim (h k) [
      | inr gone ↦ inr gone
      | inl kept ↦ elim (Bool-cases (has (extract_unknown_root_keys issues) k)) [
        | inl named ↦ inr (
          kept
              ∙ lookup-prune_keys k cfg (extract_unknown_root_keys issues)
              ∙ ap (λ b. if b then none else lookup k cfg) named,
          record {
            tried = cfg;
            issues = issues;
            refused = e;
            named = extract-Names k issues named;
          },
        )
        | inr other ↦ inl (
            kept
            ∙ lookup-prune_keys k cfg (extract_unknown_root_keys issues)
            ∙ ap (λ b. if b then none else lookup k cfg) other)
      ]
    ]

    try-Stripped :
        (cfg c : Assoc V) (retry : List String → Option (Assoc V)) (reply : SetReply)
        → set cfg ≡ reply
        → ((issues : List ZodIssue)
            → set cfg ≡ zod_error issues
            → retry (extract_unknown_root_keys issues) ≡ some c
            → (set c ≡ accepts) × Stripped c cfg)
        → after_try cfg retry reply ≡ some c
        → (set c ≡ accepts) × Stripped c cfg
    try-Stripped cfg c retry accepts e h done =
        let same : cfg ≡ c = ground (arith, done) in
        (ap set (sym same) ∙ e, λ k. inl (ap (lookup k) (sym same)))
    try-Stripped cfg c retry other_error e h done = cc
    try-Stripped cfg c retry (zod_error issues) e h done = h issues e (
        unless_none-some (extract_unknown_root_keys issues)
          (retry (extract_unknown_root_keys issues)) c done)

    -- For every number of retries and every configuration: what is applied in the end was accepted by
    -- the node, and has each key with its value of the configuration, or does not have it, where a
    -- refusal of the node named the key as unknown at the root.
    pub strip_unknown-Stripped :
        (retries : ℕ) (cfg c : Assoc V)
        → strip_unknown set retries cfg ≡ some c
        → (set c ≡ accepts) × Stripped c cfg
    unfolding strip_unknown
    strip_unknown-Stripped zero cfg c e =
        try-Stripped cfg c (λ keys. none) (set cfg) refl (λ issues r d. cc) e
    strip_unknown-Stripped (suc retries) cfg c e =
        try-Stripped cfg c (λ keys. strip_unknown set retries (prune_keys cfg keys)) (set cfg) refl
          (λ issues r d.
            let next = prune_keys cfg (extract_unknown_root_keys issues) in
            let (accepted, stripped) = strip_unknown-Stripped retries next c d in
            (accepted, Stripped-prune c cfg issues r stripped))
          e
