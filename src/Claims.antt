-- ===== src/Claims.antt =====
-- The claims of development tasks by sessions: developmentClaimStore of
-- backend/internal/app/development_claim.go. The mutex makes each method one step. A lease is random
-- text that crypto/rand draws, an argument here; two leases are compared in full, whatever the time.
pub mod Sessions
pub mod History
pub mod Finishing
use viki.Prelude.{
  ◌≡◌, Bool, true, false, not, ◌&&◌, ◌||◌, Option, none, some, List, [], ◌∷◌, Text, text_eq,
  is_empty, find_key, put_key, drop_key, if◌then◌else◌, is_some,
}

pub record Claim : Type 0 where
  pub task : Text
  pub revision : Text
  pub lease : Text
  pub finishing : Bool

abbrev pub Store : Type 0
Store = List (Text × Claim)

-- sameDevelopmentLease
unfoldable pub same_lease : Text → Text → Bool
same_lease expected provided =
    not (is_empty expected || is_empty provided) && text_eq expected provided

abbrev pub new_claim : Text → Text → Claim
new_claim task lease = record { task = task; revision = []; lease = lease; finishing = false }

unfoldable pub reserve : Text → Text → Text → Store → Store × Bool
reserve session task lease store =
    if is_some (find_key session store)
    then (store, false)
    else (put_key session (new_claim task lease) store, true)

-- The session's claim, where it has the task and the lease.
abbrev pub held : Text → Text → Option Claim → Option Claim
held task lease none = none
held task lease (some c) =
    if not (text_eq c.task task) || not (same_lease c.lease lease) then none else some c

abbrev pub bind_held : Text → Text → Store → Option Claim → Store × Bool
bind_held session revision store none = (store, false)
bind_held session revision store (some c) =
    if not (is_empty c.revision)
    then (store, false)
    else (put_key session (record c { revision = revision }) store, true)

unfoldable pub bind : Text → Text → Text → Text → Store → Store × Bool
bind session task lease revision store =
    bind_held session revision store (held task lease (find_key session store))

abbrev pub begin_held : Text → Store → Option Claim → Store × Option Text
begin_held session store none = (store, none)
begin_held session store (some c) =
    if is_empty c.revision || c.finishing
    then (store, none)
    else (put_key session (record c { finishing = true }) store, some c.revision)

-- The revision to finish, which only one caller at a time gets.
unfoldable pub begin : Text → Text → Text → Store → Store × Option Text
begin session task lease store = begin_held session store (held task lease (find_key session store))

abbrev pub retry_held : Text → Store → Option Claim → Store
retry_held session store none = store
retry_held session store (some c) = put_key session (record c { finishing = false }) store

unfoldable pub retry : Text → Text → Text → Store → Store
retry session task lease store = retry_held session store (held task lease (find_key session store))

abbrev pub release_held : Text → Store → Option Claim → Store
release_held session store none = store
release_held session store (some _) = drop_key session store

unfoldable pub release : Text → Text → Text → Store → Store
release session task lease store =
    release_held session store (held task lease (find_key session store))

-- One call of a method.
pub data Call : Type 0 where
  reserving : Text → Text → Text → Call
  binding : Text → Text → Text → Text → Call
  beginning retrying releasing : Text → Text → Text → Call

abbrev pub after : Call → Store → Store
after (reserving s t l) store = (reserve s t l store).0
after (binding s t l r) store = (bind s t l r store).0
after (beginning s t l) store = (begin s t l store).0
after (retrying s t l) store = retry s t l store
after (releasing s t l) store = release s t l store

-- The store after a history of calls, the latest first.
abbrev pub after_all : List Call → Store → Store
after_all [] store = store
after_all (call ∷ earlier) store = after call (after_all earlier store)
