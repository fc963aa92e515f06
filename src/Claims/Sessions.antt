-- ===== src/Claims/Sessions.antt =====
-- Each session is a state machine of its own: a claim that is there or not.
use viki.Prelude.{
  ◌≡◌, refl, Bool, true, false, not, ◌&&◌, Option, none, some, [], Text, text_eq, text_eq→≡,
  text_eq_refl, is_empty, find_key, find_key-put_key, find_key-drop_key, put_key, if◌then◌else◌,
  arith, inl, inr, Bool-cases,
}
use viki.Claims.{
  Claim, Store, Call, reserving, binding, beginning, retrying, releasing, reserve, bind, begin,
  retry, release, same_lease, held, bind_held, begin_held, retry_held, new_claim, after,
}

abbrev pub session_of : Call → Text
session_of (reserving s _ _) = s
session_of (binding s _ _ _) = s
session_of (beginning s _ _) = s
session_of (retrying s _ _) = s
session_of (releasing s _ _) = s

-- The claim has the task, and the lease is the claim's.
abbrev pub holds : Text → Text → Claim → Bool
holds task lease c = text_eq c.task task && same_lease c.lease lease

abbrev pub claim_after : Call → Option Claim → Option Claim
claim_after (reserving _ t l) none = some (new_claim t l)
claim_after (reserving _ t l) (some c) = some c
claim_after (binding _ t l r) (some c) =
    some (if holds t l c && is_empty c.revision then record c { revision = r } else c)
claim_after (beginning _ t l) (some c) = some (
    if holds t l c && not (is_empty c.revision) && not c.finishing
    then record c { finishing = true }
    else c)
claim_after (retrying _ t l) (some c) =
    some (if holds t l c then record c { finishing = false } else c)
claim_after (releasing _ t l) (some c) = if holds t l c then none else some c
claim_after _ none = none

bind_session :
    (s t l r : Text) (store : Store) (o : Option Claim)
    → find_key s store ≡ o
    → find_key s (bind_held s r store (held t l o)).0 ≡ claim_after (binding s t l r) o
bind_session s t l r store none e = e
bind_session s t l r store (some c) e =
    ground (arith, e, find_key-put_key s s (record c { revision = r }) store, text_eq_refl s)

begin_session :
    (s t l : Text) (store : Store) (o : Option Claim)
    → find_key s store ≡ o
    → find_key s (begin_held s store (held t l o)).0 ≡ claim_after (beginning s t l) o
begin_session s t l store none e = e
begin_session s t l store (some c) e =
    ground (arith, e, find_key-put_key s s (record c { finishing = true }) store, text_eq_refl s)

retry_session :
    (s t l : Text) (store : Store) (o : Option Claim)
    → find_key s store ≡ o
    → find_key s (retry_held s store (held t l o)) ≡ claim_after (retrying s t l) o
retry_session s t l store none e = e
retry_session s t l store (some c) e =
    ground (arith, e, find_key-put_key s s (record c { finishing = false }) store, text_eq_refl s)

at_session :
    (call : Call) (store : Store)
    → find_key (session_of call) (after call store)
      ≡ claim_after call (find_key (session_of call) store)
unfolding reserve bind begin retry release
at_session (reserving s t l) store =
    ground (arith, find_key-put_key s s (new_claim t l) store, text_eq_refl s)
at_session (binding s t l r) store = bind_session s t l r store _ refl
at_session (beginning s t l) store = begin_session s t l store _ refl
at_session (retrying s t l) store = retry_session s t l store _ refl
at_session (releasing s t l) store = ground (arith, find_key-drop_key s s store, text_eq_refl s)

-- A write to one session is not read at another.
put_elsewhere :
    (s j : Text) (c : Claim) (store : Store)
    → text_eq s j ≡ false
    → find_key j (put_key s c store) ≡ find_key j store
put_elsewhere s j c store other = rw (find_key-put_key, other) refl

held_elsewhere :
    (s t l r j : Text) (store : Store) (o : Option Claim)
    → text_eq s j ≡ false
    → (find_key j (bind_held s r store (held t l o)).0 ≡ find_key j store)
      × (find_key j (begin_held s store (held t l o)).0 ≡ find_key j store)
      × (find_key j (retry_held s store (held t l o)) ≡ find_key j store)
held_elsewhere s t l r j store none other = (refl, refl, refl)
held_elsewhere s t l r j store (some c) other = (
  ground (arith, put_elsewhere s j (record c { revision = r }) store other),
  ground (arith, put_elsewhere s j (record c { finishing = true }) store other),
  ground (arith, put_elsewhere s j (record c { finishing = false }) store other),
)

elsewhere :
    (call : Call) (j : Text) (store : Store)
    → text_eq (session_of call) j ≡ false
    → find_key j (after call store) ≡ find_key j store
unfolding reserve bind begin retry release
elsewhere (reserving s t l) j store h = ground (arith, put_elsewhere s j (new_claim t l) store h)
elsewhere (binding s t l r) j store h = (held_elsewhere s t l r j store (find_key s store) h).0
elsewhere (beginning s t l) j store h = (held_elsewhere s t l [] j store (find_key s store) h).1
elsewhere (retrying s t l) j store h = (held_elsewhere s t l [] j store (find_key s store) h).2
elsewhere (releasing s t l) j store h = ground (arith, find_key-drop_key j s store, h)

-- A call changes the claim of its own session as `claim_after` says and no other session's claim.
pub after-claim_after :
    (call : Call) (j : Text) (store : Store)
    → find_key j (after call store) ≡ (
        if text_eq (session_of call) j
        then claim_after call (find_key j store)
        else find_key j store)
after-claim_after call j store = elim (Bool-cases (text_eq (session_of call) j)) [
  | inl same ↦
      let key = text_eq→≡ (session_of call) j same in rw same (rw (← key) (at_session call store))
  | inr other ↦ rw other (elsewhere call j store other)
]
