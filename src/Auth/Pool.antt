-- ===== src/Auth/Pool.antt =====
-- `DBSession` of module1-auth/app/dependencies.py: a connection of the pool, held for one request
-- with its row-level context and in one transaction.
pub mod Laws
use prompt_flow_ai.Prelude.{
  ℕ, suc, ◌-◌, ◌==◌, String, Bool, true, false, not, ◌&&◌, Option, none, some, if◌then◌else◌,
}
use prompt_flow_ai.Http.{Answer, ok, http_error, unhandled}
use prompt_flow_ai.Auth.Roles.{Claims}

pub record Pool : Type 0 where
  pub free : ℕ
  pub in_use : ℕ

-- What a connection does, call by call: `false` is an exception.
pub record Connection : Type 0 where
  pub start_works : Bool
  pub set_department_works : Bool
  pub set_role_works : Bool
  pub set_user_id_works : Bool
  pub rollback_works : Bool
  pub commit_works : Bool

-- The settings of the transaction that the row-level policies read.
pub record Context : Type 0 where
  pub department : String
  pub role : String
  pub user_id : String

-- `c.get(...) or ""`
abbrev or_empty : Option String → String
or_empty none = ""
or_empty (some s) = s

unfoldable pub context_of : Claims → Context
context_of c = record { department = or_empty c.department_code; role = c.role; user_id = c.sub }

-- The calls of `__aenter__` after `acquire`.
unfoldable pub enter_works : Connection → Bool
enter_works k = k.start_works && k.set_department_works && k.set_role_works && k.set_user_id_works

abbrev pub release : Pool → Pool
release p = record { free = suc p.free; in_use = p.in_use - 1 }

abbrev pub taken : Pool → Pool
taken p = record { free = p.free - 1; in_use = suc p.in_use }

-- The pool at the time when `acquire`, which has no time limit, gets a connection: without a free one
-- the request waits until another one has released its own.
unfoldable pub available : Pool → Pool
available p = if p.free == 0 then release p else p

-- The `except` block of `__aenter__`: a rollback that raises leaves before `release`.
unfoldable pub abandon : Connection → Pool → Pool
abandon k p = if k.rollback_works then release p else p

module _ {S A : Type 0} where
  -- `__aexit__` and the answer: the transaction ends, and `finally` releases the connection. The
  -- FastAPI in use leaves a dependency after the answer has been sent, so a commit that raises does
  -- not change it, but an exception of the body reaches the dependency first.
  unfoldable pub finish : Connection → Answer A × S → Pool × S → Answer A × (Pool × S)
  finish k (ok a, s') (p, s) = (ok a, (release p, if k.commit_works then s' else s))
  finish k (http_error status detail, s') (p, s) =
      if k.rollback_works
      then (http_error status detail, (release p, s))
      else (unhandled, (release p, s))
  finish k (unhandled, s') (p, s) = (unhandled, (release p, s))

  -- A connection that has been acquired for the request.
  unfoldable pub acquired :
      Connection → Claims → (Context → S → Answer A × S) → Pool × S → Answer A × (Pool × S)
  unfolding enter_works abandon finish context_of
  acquired k c body (p, s) =
      if enter_works k
      then finish k (body (context_of c) s) (taken p, s)
      else (unhandled, (abandon k (taken p), s))

  -- `async with DBSession(claims)` around a body
  unfoldable pub with_session :
      Connection → Claims → (Context → S → Answer A × S) → Pool × S → Answer A × (Pool × S)
  unfolding acquired available
  with_session k c body (p, s) = acquired k c body (available p, s)
