-- ===== src/Tests/Claims.antt =====
-- A session that reserves, binds and begins a task.
use viki.Prelude.{
  ◌≡◌, refl, true, none, some, List, [], ◌∷◌, codes, any, find_key, put_key, if◌then◌else◌, text_eq,
}
use viki.Claims.{
  Call, reserving, binding, beginning, retrying, reserve, bind, begin, same_lease, after, after_all,
}
use viki.Claims.Sessions.{claim_after, after-claim_after}
use viki.Claims.History.{reserves, binds, begin-history}
use viki.Claims.Finishing.{begin_exclusive}

abbrev bound_calls : List Call
bound_calls =
    binding (codes "s") (codes "t") (codes "l") (codes "r")
    ∷ reserving (codes "s") (codes "t") (codes "l")
    ∷ []

after-claim_after_example :
    find_key
      (codes "s")
      (after (beginning (codes "s") (codes "t") (codes "l")) (after_all bound_calls []))
    ≡ (if text_eq (codes "s") (codes "s")
        then claim_after
            (beginning (codes "s") (codes "t") (codes "l"))
            (find_key (codes "s") (after_all bound_calls []))
        else find_key (codes "s") (after_all bound_calls []))
after-claim_after_example =
    after-claim_after (beginning (codes "s") (codes "t") (codes "l")) (codes "s")
      (after_all bound_calls [])

begin_works :
    (begin (codes "s") (codes "t") (codes "l") (after_all bound_calls [])).1 ≡ some (codes "r")
unfolding begin reserve bind same_lease find_key put_key
begin_works = refl

begin-history_example :
    (any (reserves (codes "s") (codes "t") (codes "l")) bound_calls ≡ true)
    × (any (binds (codes "s") (codes "t") (codes "l") (codes "r")) bound_calls ≡ true)
begin-history_example =
    begin-history bound_calls (codes "s") (codes "t") (codes "l") (codes "r") begin_works

abbrev intrusions : List Call
intrusions =
    retrying (codes "s") (codes "t") (codes "x")
    ∷ beginning (codes "s") (codes "t") (codes "l")
    ∷ []

begin_exclusive_example :
    (begin (codes "s") (codes "t") (codes "l") (
      after_all intrusions
        (begin (codes "s") (codes "t") (codes "l") (after_all bound_calls [])).0)).1
    ≡ none
begin_exclusive_example =
    begin_exclusive (codes "s") (codes "t") (codes "l") (codes "r") (after_all bound_calls [])
      intrusions (codes "t") (codes "l") begin_works refl
