-- ===== src/Claims/Finishing.antt =====
-- Only one caller at a time finishes the task of a session.
use viki.Prelude.{
  ◌≡◌, refl, ap, ◌∙◌, Bool, true, false, ◌&&◌, Option, none, some, List, [], ◌∷◌, Text, text_eq,
  text_eq→≡, text_eq_refl, any, find_key, if◌then◌else◌, arith, or_false_left, or_false_right,
}
use viki.Claims.{
  Claim, Store, Call, reserving, binding, beginning, retrying, releasing, begin, held, begin_held,
  same_lease, after_all,
}
use viki.Claims.Sessions.{session_of, claim_after, after-claim_after}

-- A call that retries or releases the session with the task and the lease.
abbrev pub frees : Text → Text → Text → Call → Bool
frees s t l (retrying s' t' l') = text_eq s' s && text_eq t' t && text_eq l' l
frees s t l (releasing s' t' l') = text_eq s' s && text_eq t' t && text_eq l' l
frees s t l _ = false

-- The session's task is being finished under the lease.
abbrev busy : Text → Text → Option Claim → Bool
busy t l none = false
busy t l (some c) = c.finishing && text_eq c.task t && text_eq c.lease l

claim_after-busy :
    (s t l : Text) (call : Call) (o : Option Claim)
    → frees s t l call ≡ false
    → text_eq (session_of call) s ≡ true
    → busy t l o ≡ true
    → busy t l (claim_after call o) ≡ true
unfolding same_lease
claim_after-busy s t l call none free mine h = cc
claim_after-busy s t l (reserving s' t' l') (some c) free mine h = h
claim_after-busy s t l (binding s' t' l' r') (some c) free mine h = ground (arith, h)
claim_after-busy s t l (beginning s' t' l') (some c) free mine h = ground (arith, h)
claim_after-busy s t l (retrying s' t' l') (some c) free mine h = ground (
  arith,
  h,
  free,
  mine,
  text_eq→≡ c.task t,
  text_eq→≡ c.lease l,
  text_eq→≡ c.task t',
  text_eq→≡ c.lease l',
  text_eq_refl t,
  text_eq_refl l,
)
claim_after-busy s t l (releasing s' t' l') (some c) free mine h = ground (
  arith,
  h,
  free,
  mine,
  text_eq→≡ c.task t,
  text_eq→≡ c.lease l,
  text_eq→≡ c.task t',
  text_eq→≡ c.lease l',
  text_eq_refl t,
  text_eq_refl l,
)

after_all-busy :
    (s t l : Text) (calls : List Call) (store : Store)
    → any (frees s t l) calls ≡ false
    → busy t l (find_key s store) ≡ true
    → busy t l (find_key s (after_all calls store)) ≡ true
after_all-busy s t l [] store free h = h
after_all-busy s t l (call ∷ earlier) store free h =
    ap (busy t l) (after-claim_after call s (after_all earlier store))
    ∙ go (text_eq (session_of call) s) refl
        (after_all-busy s t l earlier store (or_false_right (frees s t l call) _ free) h)
  where
    go :
        (b : Bool)
        → text_eq (session_of call) s ≡ b
        → busy t l (find_key s (after_all earlier store)) ≡ true
        → busy t l (
            if b
            then claim_after call (find_key s (after_all earlier store))
            else find_key s (after_all earlier store))
          ≡ true
    go true mine k = claim_after-busy s t l call _ (or_false_left (frees s t l call) _ free) mine k
    go false other k = k

begins-busy :
    (s t l : Text) (o : Option Claim) (store : Store) (r : Text)
    → (begin_held s store (held t l o)).1 ≡ some r
    → busy t l (claim_after (beginning s t l) o) ≡ true
unfolding same_lease
begins-busy s t l none store r h = cc
begins-busy s t l (some c) store r h = ground (arith, h)

busy_refused :
    (s t l t' l' : Text) (o : Option Claim) (store : Store)
    → busy t l o ≡ true
    → (begin_held s store (held t' l' o)).1 ≡ none
busy_refused s t l t' l' none store h = refl
busy_refused s t l t' l' (some c) store h = ground (arith, h)

-- After a caller was given a revision to finish, and until the holder of that task and lease retries
-- or releases the session, nobody is given the session's revision again.
pub begin_exclusive :
    (s t l r : Text) (store : Store) (calls : List Call) (t' l' : Text)
    → (begin s t l store).1 ≡ some r
    → any (frees s t l) calls ≡ false
    → (begin s t' l' (after_all calls (begin s t l store).0)).1 ≡ none
unfolding begin
begin_exclusive s t l r store calls t' l' h free = busy_refused s t l t' l' _ _ (
    after_all-busy s t l calls (begin s t l store).0 free (
      ap (busy t l) (after-claim_after (beginning s t l) s store)
      ∙ rw (text_eq_refl s) (begins-busy s t l (find_key s store) store r h)))
