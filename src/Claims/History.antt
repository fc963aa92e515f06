-- ===== src/Claims/History.antt =====
-- What the history of calls says about a claim.
use viki.Prelude.{
  ◌≡◌, refl, sym, Bool, true, false, not, ◌&&◌, Option, none, some, List, [], ◌∷◌, Text, text_eq,
  text_eq→≡, text_eq_refl, is_empty, any, find_key, find_key-nil, if◌then◌else◌, arith,
}
use mathlib.Core.Path.{subst}
use viki.Claims.{
  Claim, Store, Call, reserving, binding, beginning, retrying, releasing, begin, held, begin_held,
  same_lease, after_all,
}
use viki.Claims.Sessions.{session_of, claim_after, holds, after-claim_after}

abbrev pub reserves : Text → Text → Text → Call → Bool
reserves s t l (reserving s' t' l') = text_eq s' s && text_eq t' t && text_eq l' l
reserves s t l _ = false

abbrev pub binds : Text → Text → Text → Text → Call → Bool
binds s t l r (binding s' t' l' r') = text_eq s' s && text_eq t' t && text_eq l' l && text_eq r' r
binds s t l r _ = false

-- A claim that the history explains: its task and lease were reserved for the session and its
-- revision, if any, was bound by the holder of the lease.
pub record Explained (s : Text) (history : List Call) (c : Claim) : Type 0 where
  pub reserved : any (reserves s c.task c.lease) history ≡ true
  pub bound : is_empty c.revision ≡ false → any (binds s c.task c.lease c.revision) history ≡ true

abbrev Explains : Text → List Call → Option Claim → Type 0
Explains s history none = Unit
Explains s history (some c) = Explained s history c

-- Later calls explain no less.
later :
    (call : Call) (s : Text) (o : Option Claim) (history : List Call)
    → Explains s history o
    → Explains s (call ∷ history) o
later call s none history e = tt
later call s (some c) history e = record {
  reserved = ground (arith, e.reserved);
  bound = λ r. ground (arith, e.bound r);
}

-- Finishing does not matter.
flagged :
    (s : Text) (history : List Call) (c : Claim) (test flag : Bool)
    → Explained s history c
    → Explained s history (if test then record c { finishing = flag } else c)
flagged s history c true flag e = record { reserved = e.reserved; bound = e.bound }
flagged s history c false flag e = e

bound_now :
    (s' s t l r : Text) (history : List Call) (c : Claim) (test : Bool)
    → (holds t l c && is_empty c.revision) ≡ test
    → text_eq s' s ≡ true
    → Explained s history c
    → Explained s (binding s' t l r ∷ history) (if test then record c { revision = r } else c)
unfolding same_lease
bound_now s' s t l r history c true held h e = record {
  reserved = e.reserved;
  bound = λ _. ground (
    arith,
    h,
    held,
    text_eq→≡ c.task t,
    text_eq→≡ c.lease l,
    text_eq_refl t,
    text_eq_refl l,
    text_eq_refl r,
  );
}
bound_now s' s t l r history c false held h e = later (binding s' t l r) s (some c) history e

claim_after-Explains :
    (call : Call) (s : Text) (o : Option Claim) (history : List Call)
    → text_eq (session_of call) s ≡ true
    → Explains s history o
    → Explains s (call ∷ history) (claim_after call o)
claim_after-Explains (reserving s' t l) s none history h e = record {
  reserved = ground (arith, h, text_eq_refl t, text_eq_refl l);
  bound = λ r. cc;
}
claim_after-Explains (reserving s' t l) s (some c) history h e =
    later (reserving s' t l) s (some c) history e
claim_after-Explains (binding s' t l r) s (some c) history h e =
    bound_now s' s t l r history c _ refl h e
claim_after-Explains (beginning s' t l) s (some c) history h e =
    flagged s (beginning s' t l ∷ history) c
      (holds t l c && not (is_empty c.revision) && not c.finishing) true
      (later (beginning s' t l) s (some c) history e)
claim_after-Explains (retrying s' t l) s (some c) history h e =
    flagged s (retrying s' t l ∷ history) c (holds t l c) false
      (later (retrying s' t l) s (some c) history e)
claim_after-Explains (releasing s' t l) s (some c) history h e = go (holds t l c)
  where
    go : (b : Bool) → Explains s (releasing s' t l ∷ history) (if b then none else some c)
    go true = tt
    go false = later (releasing s' t l) s (some c) history e
claim_after-Explains (binding s' t l r) s none history h e = tt
claim_after-Explains (beginning s' t l) s none history h e = tt
claim_after-Explains (retrying s' t l) s none history h e = tt
claim_after-Explains (releasing s' t l) s none history h e = tt

after_all-Explains :
    (history : List Call) (s : Text) → Explains s history (find_key s (after_all history []))
after_all-Explains [] s = subst (Explains s []) (sym (find_key-nil {V = Claim} s)) tt
after_all-Explains (call ∷ earlier) s =
    subst (Explains s (call ∷ earlier)) (sym (after-claim_after call s (after_all earlier [])))
      (go (text_eq (session_of call) s) refl (after_all-Explains earlier s))
  where
    go :
        (b : Bool)
        → text_eq (session_of call) s ≡ b
        → Explains s earlier (find_key s (after_all earlier []))
        → Explains s (call ∷ earlier) (
            if b
            then claim_after call (find_key s (after_all earlier []))
            else find_key s (after_all earlier []))
    go true mine h = claim_after-Explains call s _ earlier mine h
    go false other h = later call s _ earlier h

-- A claim that begins: it has the task and the lease, and the revision.
pub begin_held-some :
    (session task lease : Text) (store : Store) (c : Claim) (revision : Text)
    → (begin_held session store (held task lease (some c))).1 ≡ some revision
    → (c.task ≡ task)
      × (c.lease ≡ lease)
      × (c.revision ≡ revision)
      × (is_empty c.revision ≡ false)
      × (c.finishing ≡ false)
unfolding same_lease
begin_held-some session task lease store c revision h = (
  ground (arith, h, text_eq→≡ c.task task),
  ground (arith, h, text_eq→≡ c.lease lease),
  ground (arith, h),
  ground (arith, h),
  ground (arith, h),
)

begins_with :
    (session task lease : Text) (store : Store) (o : Option Claim) (revision : Text)
    (history : List Call)
    → (begin_held session store (held task lease o)).1 ≡ some revision
    → Explains session history o
    → (any (reserves session task lease) history ≡ true)
      × (any (binds session task lease revision) history ≡ true)
begins_with session task lease store none revision history h e = cc
begins_with session task lease store (some c) revision history h e =
    let (task_eq, lease_eq, revision_eq, bound, _) =
      begin_held-some session task lease store c revision h in
    (
      rw (← task_eq, ← lease_eq) e.reserved,
      rw (← task_eq, ← lease_eq, ← revision_eq) (e.bound bound),
    )

-- After any history of calls on an empty store, a caller who is given a revision to finish has the
-- task and the lease that were reserved for the session, and the revision is one that was bound with
-- them.
pub begin-history :
    (history : List Call) (session task lease revision : Text)
    → (begin session task lease (after_all history [])).1 ≡ some revision
    → (any (reserves session task lease) history ≡ true)
      × (any (binds session task lease revision) history ≡ true)
unfolding begin
begin-history history session task lease revision h =
    begins_with session task lease (after_all history []) _ revision history h
      (after_all-Explains history session)
